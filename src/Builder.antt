-- ===== src/Builder.antt =====
-- internal/server/builder/builder.go: the targets, and the patching of a cached client binary. A text
-- and a binary are the lists of their bytes.
pub mod Patched
pub mod Examples
use trasker.Prelude.{
  ℕ, zero, suc, ◌-◌, Bool, true, false, ◌&&◌, Option, none, some, List, [], ◌∷◌, ◌++◌, ltb, ◌==◌,
  if◌then◌else◌, length, Result, ok, err, find, is_some, map,
}

abbrev pub Bytes : Type 0
Bytes = List ℕ

abbrev pub same_bytes : Bytes → Bytes → Bool
same_bytes [] [] = true
same_bytes (x ∷ xs) (y ∷ ys) = (x == y) && same_bytes xs ys
same_bytes _ _ = false

pub record Target : Type 0 where
  pub os : Bytes
  pub arch : Bytes

-- "linux", "darwin", "windows", "amd64" and "arm64".
abbrev linux : Bytes
linux = 108 ∷ 105 ∷ 110 ∷ 117 ∷ 120 ∷ []

abbrev darwin : Bytes
darwin = 100 ∷ 97 ∷ 114 ∷ 119 ∷ 105 ∷ 110 ∷ []

abbrev windows : Bytes
windows = 119 ∷ 105 ∷ 110 ∷ 100 ∷ 111 ∷ 119 ∷ 115 ∷ []

abbrev amd64 : Bytes
amd64 = 97 ∷ 109 ∷ 100 ∷ 54 ∷ 52 ∷ []

abbrev arm64 : Bytes
arm64 = 97 ∷ 114 ∷ 109 ∷ 54 ∷ 52 ∷ []

abbrev pub supported_targets : List Target
supported_targets =
    record { os = linux; arch = amd64 }
    ∷ record { os = linux; arch = arm64 }
    ∷ record { os = darwin; arch = amd64 }
    ∷ record { os = darwin; arch = arm64 }
    ∷ record { os = windows; arch = amd64 }
    ∷ []

abbrev pub same_target : Target → Target → Bool
same_target a b = same_bytes a.os b.os && same_bytes a.arch b.arch

-- `ValidateTarget`; none is the error.
unfoldable pub validate_target : Bytes → Bytes → Option Target
validate_target os arch = find (λ t. same_bytes t.os os && same_bytes t.arch arch) supported_targets

-- The cached binaries; the key `os/arch` stands for the target.
abbrev pub Cache : Type 0
Cache = List (Target × Bytes)

abbrev pub cached : Target → Cache → Option Bytes
cached t [] = none
cached t ((u, b) ∷ c) = if same_target u t then some b else cached t c

unfoldable pub is_cached : Cache → Target → Bool
is_cached c t = is_some (cached t c)

-- `CacheStatus`, in the order of the targets.
unfoldable pub cache_status : Cache → List (Target × Bool)
unfolding is_cached
cache_status c = map (λ t. (t, is_cached c t)) supported_targets

abbrev pub sentinel_len : ℕ
sentinel_len = 128

abbrev pub zeros : ℕ → Bytes
zeros zero = []
zeros (suc n) = 0 ∷ zeros n

-- `padToLen`; none is nil.
unfoldable pub pad_to_len : Bytes → ℕ → Option Bytes
pad_to_len s n = if ltb n (length s) then none else some (s ++ zeros (n - length s))

abbrev pub starts_with : Bytes → Bytes → Bool
starts_with [] s = true
starts_with (x ∷ xs) [] = false
starts_with (x ∷ xs) (y ∷ ys) = (x == y) && starts_with xs ys

abbrev pub skip : ℕ → Bytes → Bytes
skip zero s = s
skip (suc n) [] = []
skip (suc n) (x ∷ s) = skip n s

-- `bytes.Replace(s, old, new, 1)` for an `old` that is not empty.
unfoldable pub replace_first : Bytes → Bytes → Bytes → Bytes
replace_first old new [] = []
replace_first old new (b ∷ s) =
    let later = b ∷ replace_first old new s in
    if starts_with old (b ∷ s) then new ++ skip (length old) (b ∷ s) else later

-- The three sentinels that are compiled into the binary.
pub record Sentinels : Type 0 where
  pub server_url : Bytes
  pub api_key : Bytes
  pub version : Bytes

pub record PatchRequest : Type 0 where
  pub target : Target
  pub api_key : Bytes
  pub server_url : Bytes
  pub version : Bytes

pub data PatchError : Type 0 where
  not_cached too_long : PatchError

-- The replacements, one after the other.
unfoldable pub patch_all : Sentinels → Bytes → Bytes → Bytes → Bytes → Bytes
unfolding replace_first
patch_all k url key ver generic =
    replace_first k.version ver
      (replace_first k.api_key key (replace_first k.server_url url generic))

-- `Patch`.
unfoldable pub patch : Sentinels → Cache → PatchRequest → Result PatchError Bytes
unfolding pad_to_len patch_all
patch k c req = elim (cached req.target c) [
  | none ↦ err not_cached
  | some generic ↦ elim (pad_to_len req.server_url sentinel_len) [
    | none ↦ err too_long
    | some url ↦ elim (pad_to_len req.api_key sentinel_len) [
      | none ↦ err too_long
      | some key ↦ elim (pad_to_len req.version sentinel_len) [
        | none ↦ err too_long
        | some ver ↦ ok (patch_all k url key ver generic)
      ]
    ]
  ]
]

-- `strings.TrimRight(s, "\x00")`, with which cmd/trasker-client/main.go reads a value.
unfoldable pub trim_right : Bytes → Bytes
trim_right [] = []
trim_right (b ∷ s) = elim (trim_right s) [
  | [] ↦ if b == 0 then [] else b ∷ []
  | x ∷ xs ↦ b ∷ x ∷ xs
]
