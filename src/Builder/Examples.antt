-- ===== src/Builder/Examples.antt =====
-- A binary with a sentinel in it.
use trasker.Prelude.{ℕ, zero, suc, ◌≡◌, refl, [], ◌∷◌, ◌++◌, arith}
use trasker.Builder.{Bytes, zeros, pad_to_len, replace_first}
use trasker.Builder.Patched.{read_at, read-replace}

abbrev pub underscores : ℕ → Bytes
underscores zero = []
underscores (suc n) = 95 ∷ underscores n

-- It begins with "TS".
abbrev pub sentinel : Bytes
sentinel = 84 ∷ 83 ∷ underscores 126

-- "http".
abbrev url : Bytes
url = 104 ∷ 116 ∷ 116 ∷ 112 ∷ []

-- A "T" that starts no sentinel stands before it.
abbrev before : Bytes
before = 127 ∷ 84 ∷ 84 ∷ []

read-replace_example :
    read_at 3 (replace_first sentinel (url ++ zeros 124) (before ++ (sentinel ++ (1 ∷ 2 ∷ []))))
    ≡ url
unfolding pad_to_len
read-replace_example =
    read-replace sentinel url (url ++ zeros 124) before (1 ∷ 2 ∷ []) refl
      (
        (λ e. absurd (omega (arith, e))),
        (
          (λ e. absurd (omega (arith, e))),
          ((λ e. absurd (omega (arith, e))), ((λ e. absurd (omega (arith, e))), tt)),
        ),
      )
      refl (refl, (refl, (refl, tt)))
