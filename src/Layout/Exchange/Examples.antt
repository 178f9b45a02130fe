-- ===== src/Layout/Exchange/Examples.antt =====
-- A lost answer, and a batch that is pruned while it is under way.
use trasker.Prelude.{refl, Bool, true, false, none, List, [], ◌∷◌, arith}
use trasker.Prelude.Sort.{sort_by}
use trasker.Store.Tables.{update_where, next_rowid}
use trasker.Server.Devices.{get_device_by_client_id}
use trasker.Server.Examples.{small_server, anna_calls}
use trasker.Server.Examples.{laptop}
use trasker.Layout.Examples.{editor, given}
use trasker.Layout.Ingest.Retried.{no_faults}
use trasker.Layout.Local.{Row}
use trasker.Layout.Syncer.{idle, posting}
use trasker.Layout.Exchange.{
  Setup, Net, Both, Event, listed, answered, updated, captured, swept, happen, run,
}
use trasker.Layout.Exchange.Once.{Agree, run-Agree}

abbrev setup : Setup
setup = record {
  client_device_id = "laptop";
  batch_size = 100;
  caller = anna_calls;
  db = small_server;
  contains = λ text word. false;
}

abbrev net : Bool → Net
net answer_lost = record {
  unreachable = false;
  answer_lost = answer_lost;
  faults = no_faults;
  given = given;
}

abbrev nothing_yet : Both
nothing_yet = record { rows = []; phase = idle; snaps = []; history = [] }

-- The first answer is lost, and the snapshot sent again; another is captured meanwhile, and the
-- server sweeps.
abbrev lost_answer : List Event
lost_answer =
    captured 10 10 (editor ∷ []) "h1"
    ∷ listed 20
    ∷ answered (net true) 21
    ∷ updated false 22
    ∷ updated false 23
    ∷ listed 400
    ∷ captured 401 401 (editor ∷ []) "h2"
    ∷ answered (net false) 402
    ∷ swept false false 403
    ∷ updated false 404
    ∷ []

run-Agree_example : Agree 9 (run setup lost_answer nothing_yet)
unfolding get_device_by_client_id happen sort_by update_where next_rowid
run-Agree_example =
    run-Agree setup 9 lost_answer nothing_yet (5, laptop, refl, refl, refl)
      (tt, (tt, (tt, (tt, (tt, (tt, (((λ e. absurd (cc)), tt), (tt, (tt, (tt, tt))))))))))
      (record { synced = tt; once = λ p. omega arith; ids = tt; holding = tt })

abbrev old_row : Row
old_row = record {
  id = 1;
  captured_at = 10;
  windows = editor ∷ [];
  windows_hash = "h1";
  synced_at = none;
  retry_count = 0;
  last_retry = none;
  created_at = 10;
}

abbrev under_way : Both
under_way = record { rows = old_row ∷ []; phase = posting (old_row ∷ []); snaps = []; history = [] }
