-- ===== src/Store/EventLog.antt =====
-- `JsonlEventLog`: a file of one JSON text for each event, which is only appended to.
use glass_guru.Base.{
  ap, suc, false, Bool-cases, subst, ltb, inl, inr, ◌≡◌, refl, sym, ◌∙◌, Bool, true, Option, none,
  some, List, [], ◌∷◌, ◌++◌, map, select, length, leb, ℕ, arith, if◌then◌else◌, append_nil,
}
use glass_guru.Model.Units.{Moment}
use glass_guru.Events.{Event}
use glass_guru.World.Fold.{fold}
use glass_guru.World.Fold.Replay.{fold-select}
use glass_guru.Store.Files.{Json}

module _ (json : Json Event) where
  open json use {Text, dump, load, is_blank, load-dump, is_blank-dump}

  -- JsonlEventLog.append, on the file's lines or `none` where there is no file yet
  unfoldable pub append : Option (List Text) → List Event → Option (List Text)
  append file [] = file
  append none (e ∷ es) = some (map dump (e ∷ es))
  append (some lines) (e ∷ es) = some (lines ++ map dump (e ∷ es))

  abbrev pub is_wanted : Option Moment → Event → Bool
  is_wanted none e = true
  is_wanted (some t) e = leb e.recorded_at t

  -- the loop over the lines
  unfoldable pub read_lines : Option Moment → List Text → List Event
  read_lines as_of [] = []
  read_lines as_of (l ∷ ls) =
      let rest = read_lines as_of ls in
      if is_blank l then rest else if is_wanted as_of (load l) then load l ∷ rest else rest

  -- JsonlEventLog.read
  unfoldable pub read : Option (List Text) → Option Moment → List Event
  unfolding read_lines
  read none as_of = []
  read (some lines) as_of = read_lines as_of lines

  -- JsonlEventLog.__len__
  unfoldable pub event_count : Option (List Text) → ℕ
  unfolding read
  event_count file = length (read file none)

  read_lines-append :
      (as_of : Option Moment) (ls ms : List Text)
      → read_lines as_of (ls ++ ms) ≡ read_lines as_of ls ++ read_lines as_of ms
  unfolding read_lines
  read_lines-append as_of [] ms = refl
  read_lines-append as_of (l ∷ ls) ms = ground (arith, read_lines-append as_of ls ms)

  read_lines-dump :
      (as_of : Option Moment) (es : List Event)
      → read_lines as_of (map dump es) ≡ select (is_wanted as_of) es
  unfolding read_lines
  read_lines-dump as_of [] = refl
  read_lines-dump as_of (e ∷ es) = rw (is_blank-dump e, load-dump e, read_lines-dump as_of es) refl

  -- Reading after an append gives what was there before and, of the new events, those that were
  -- recorded by the moment asked for, in the order in which they were appended.
  pub read-append :
      (file : Option (List Text)) (es : List Event) (as_of : Option Moment)
      → read (append file es) as_of ≡ read file as_of ++ select (is_wanted as_of) es
  unfolding read append
  read-append none [] as_of = refl
  read-append none (e ∷ es) as_of = read_lines-dump as_of (e ∷ es)
  read-append (some ls) [] as_of = sym (append_nil (read_lines as_of ls))
  read-append (some ls) (e ∷ es) as_of =
      read_lines-append as_of ls (map dump (e ∷ es)) ∙ rw (read_lines-dump as_of (e ∷ es)) refl

  read_lines-select :
      (t : Moment) (ls : List Text)
      → read_lines (some t) ls ≡ select (λ e. leb e.recorded_at t) (read_lines none ls)
  unfolding read_lines
  read_lines-select t [] = refl
  read_lines-select t (l ∷ ls) = ground (arith, read_lines-select t ls)

  -- The world at a moment is the same whether the log is read up to that moment or in full.
  pub fold-read :
      (file : Option (List Text)) (t : Moment)
      → fold (read file (some t)) (some t) ≡ fold (read file none) (some t)
  unfolding read
  fold-read none t = refl
  fold-read (some ls) t = rw (read_lines-select t ls) (sym (fold-select (read_lines none ls) t))

  -- Workspace.exists
  unfoldable pub exists : Option (List Text) → Bool
  unfolding event_count
  exists file = ltb 0 (event_count file)

  -- Workspace.seed, with the number that it returns; `none` is the `FileExistsError`
  unfoldable pub seed : Option (List Text) → List Event → Option (Option (List Text) × ℕ)
  unfolding append exists
  seed file batch = if exists file then none else some (append file batch, length batch)

  select_all : (es : List Event) → select (is_wanted none) es ≡ es
  select_all [] = refl
  select_all (e ∷ es) = ap (λ xs. e ∷ xs) (select_all es)

  empty_or_not : (es : List Event) → ltb 0 (length es) ≡ false → es ≡ []
  empty_or_not [] h = refl
  empty_or_not (e ∷ es) h = ground (arith, h)

  seed-fresh :
      (file : Option (List Text)) (es : List Event)
      → exists file ≡ false
      → read (append file es) none ≡ es
  unfolding exists event_count
  seed-fresh file es fresh =
      read-append file es none
      ∙ ap (λ xs. xs ++ select (is_wanted none) es) (empty_or_not (read file none) fresh)
      ∙ select_all es

  seed-held :
      (file : Option (List Text)) (es : List Event)
      → ltb 0 (length (read file none)) ≡ true
      → seed file es ≡ none
  unfolding seed exists event_count
  seed-held file es held = ap (λ b. if b then none else some (append file es, length es)) held

  ltb-suc : (n : ℕ) → ltb 0 (suc n) ≡ true
  ltb-suc n = ground arith

  -- Seeding succeeds on a log without events only: it holds the seeded events then, in their order,
  -- their number is returned, and, unless there were none, seeding again is refused.
  pub seed_once :
      (file seeded : Option (List Text)) (e : Event) (es again : List Event) (n : ℕ)
      → seed file (e ∷ es) ≡ some (seeded, n)
      → (exists file ≡ false)
        × (read seeded none ≡ e ∷ es)
        × (n ≡ length (e ∷ es))
        × (seed seeded again ≡ none)
  unfolding seed
  seed_once file seeded e es again n h = elim (Bool-cases (exists file)) [
    | inl full ↦ absurd (ground (arith, full))
    | inr fresh ↦
        let done : some (append file (e ∷ es), length (e ∷ es)) ≡ some (seeded, n) =
          sym (ap (λ b. if b then none else some (append file (e ∷ es), length (e ∷ es))) fresh)
          ∙ h in
        let same : append file (e ∷ es) ≡ seeded = cc done in
        let there : read seeded none ≡ e ∷ es =
          subst (λ f. read f none ≡ e ∷ es) same (seed-fresh file (e ∷ es) fresh) in
        (
          fresh,
          there,
          cc done,
          seed-held seeded again (ap (λ xs. ltb 0 (length xs)) there ∙ ltb-suc (length es)),
        )
  ]
