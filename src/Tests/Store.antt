-- ===== src/Tests/Store.antt =====
-- The stores of the small business.
use glass_guru.Base.{
  List, length, String, ◌≡◌, ◌≢◌, refl, ap, true, false, Option, none, some, [], ◌∷◌, ◌++◌, select,
  string_eq, ◌==◌,
}
use glass_guru.Dict.{get, put}
use glass_guru.Events.{Event}
use glass_guru.Model.Plan.{PlanVersion}
use glass_guru.World.Fold.{fold}
use glass_guru.Store.Files.{Json, strip, strip_start, strip_end}
use glass_guru.Store.EventLog.{
  append, read, is_wanted, exists, event_count, seed, seed_once, read-append, fold-read,
}
use glass_guru.Store.PlanStore.{
  Directory, Commit, version, head, head_id, first_of, ancestry, commit,
}
use glass_guru.Store.Commits.{commit-head, second_commit_conflicts}
use glass_guru.Store.Ancestry.{Lineage, ancestry-Lineage}
use glass_guru.Tests.Data.{at, good_plan, late_plan}
use glass_guru.Tests.Log.{log, booked, extended}

-- Texts that are the values themselves.
abbrev pub plain : (Value : Type 0) → Json Value
plain Value = record {
  Text = Value;
  dump = λ v. v;
  load = λ v. v;
  is_blank = λ v. false;
  load-dump = λ v. refl;
  is_blank-dump = λ v. refl;
}

abbrev pub events : Json Event
events = plain Event

abbrev pub plans : Json PlanVersion
plans = plain PlanVersion

read-append_example :
    read events (append events (some log) log) (some (at 5))
    ≡ read events (some log) (some (at 5)) ++ select (is_wanted events (some (at 5))) log
read-append_example = read-append events (some log) log (some (at 5))

fold-read_example :
    fold (read events (some log) (some (at 5))) (some (at 5))
    ≡ fold (read events (some log) none) (some (at 5))
fold-read_example = fold-read events (some log) (at 5)

abbrev pub first_store : Directory PlanVersion
first_store = record { head_file = some "p1"; versions = ("p1", good_plan) ∷ [] }

-- The plan built on the first one.
abbrev next_plan : PlanVersion
next_plan = record late_plan { parent_id = some "p1" }

abbrev next_store : Directory PlanVersion
next_store = record { head_file = some "p2"; versions = ("p1", good_plan) ∷ ("p2", next_plan) ∷ [] }

next_committed : commit plans first_store next_plan (some "p1") ≡ Commit.committed next_store
unfolding commit head_id head version strip strip_start strip_end get put
next_committed = refl

strip_p2 : strip "p2" ≡ "p2"
unfolding strip strip_start strip_end
strip_p2 = refl

apart : ◌≢◌ {A = String} "p1" "p2"
apart e = let same : false ≡ true = ap (λ s. s == "p2") e in cc same

apart_some : ◌≢◌ {A = Option String} (some "p1") (some "p2")
apart_some e = apart (cc e)

commit-head_example :
    (head_id plans first_store ≡ some "p1")
    × (head plans next_store ≡ some next_plan)
    × (version plans next_store "p1" ≡ version plans first_store "p1")
commit-head_example =
    commit-head plans first_store next_store next_plan (some "p1") "p1" next_committed strip_p2
      apart

second_commit_conflicts_example :
    commit plans next_store good_plan (some "p1") ≡ Commit.conflict (some "p1") (some "p2")
second_commit_conflicts_example =
    second_commit_conflicts plans first_store next_store next_plan good_plan (some "p1")
      next_committed strip_p2 apart_some

ancestry-Lineage_example :
    Lineage plans next_store [] (first_of plans next_store none) (ancestry plans next_store none)
ancestry-Lineage_example = ancestry-Lineage plans next_store none

abbrev seeded_log : Option (List Event)
seeded_log = some log

seeding : seed events none log ≡ some (seeded_log, 2)
unfolding seed exists event_count read append
seeding = refl

seed_once_example :
    (exists events none ≡ false)
    × (read events seeded_log none ≡ log)
    × (2 ≡ length log)
    × (seed events seeded_log log ≡ none)
seed_once_example = seed_once events none seeded_log booked (extended ∷ []) log 2 seeding
