-- ===== src/Pacemaker/Views.antt =====
-- How the view moves, over any sequence of calls.
use bamboo.Prelude.{
  refl, sym, ℕ, ◌+◌, ◌≤◌, ◌<◌, ◌≡◌, inl, inr, List, [], ◌∷◌, ◌++◌, ltb, arith, All, All-append,
  Bool-cases,
}
use mathlib.Core.List.{append-nil}
use bamboo.Types.{View, Tmo, Vmo}
use bamboo.Pacemaker.Controller.{Tally, new_tally-IsValid, add-IsValid, total, add-total}
use bamboo.Pacemaker.Controller
use bamboo.Pacemaker.{
  Pacemaker, new_pacemaker, process_remote_tmo, process_remote_vmo, advance_view, add_tmo, add_vmo,
}

pub data Call : Type 0 where
  tmo : Tmo → Call
  vmo : Vmo → Call
  advance : View → Call

pub step : Pacemaker → Call → Pacemaker
step p (tmo m) = (process_remote_tmo p m).1
step p (vmo m) = (process_remote_vmo p m).1
step p (advance v) = advance_view v p

pub run : Pacemaker → List Call → Pacemaker
run p [] = p
run p (c ∷ cs) = run (step p c) cs

-- Every entry is smaller than all entries after it.
abbrev pub Increasing : List ℕ → Type 0
Increasing [] = Unit {0}
Increasing (x ∷ xs) = All (λ y. x < y) xs × Increasing xs

Increasing-append :
    (n : ℕ) (xs : List ℕ) → All (λ x. x < n) xs → Increasing xs → Increasing (xs ++ n ∷ [])
Increasing-append n [] h i = (tt, tt)
Increasing-append n (x ∷ xs) h i =
    (All-append (λ y. x < y) xs (n ∷ []) i.0 (h.0, tt), Increasing-append n xs h.1 i.1)

All-le_mono : {m n : ℕ} (xs : List ℕ) → m ≤ n → All (λ x. x ≤ m) xs → All (λ x. x ≤ n) xs
All-le_mono [] h a = tt
All-le_mono (x ∷ xs) h a = (omega arith, All-le_mono xs h a.1)

All-lt : {m n : ℕ} (xs : List ℕ) → m < n → All (λ x. x ≤ m) xs → All (λ x. x < n) xs
All-lt [] h a = tt
All-lt (x ∷ xs) h a = (omega arith, All-lt xs h a.1)

pub record IsValid (p : Pacemaker) : Type 0 where
  pub entered : All (λ v. v ≤ p.cur_view) p.new_view_chan
  pub increasing : Increasing p.new_view_chan
  pub timeouts : Controller.IsValid p.timeout_controller
  pub view_changes : Controller.IsValid p.view_change_controller

pub advance_view-IsValid : (v : View) (p : Pacemaker) → IsValid p → IsValid (advance_view v p)
unfolding advance_view
advance_view-IsValid v p h = elim (Bool-cases (ltb v p.cur_view)) [
  | inl old ↦ rw old h
  | inr new ↦
      let before : p.cur_view < v + 1 = ground arith in
      rw new (record {
        entered =
            All-append (λ w. w ≤ v + 1) p.new_view_chan ((v + 1) ∷ [])
              (All-le_mono p.new_view_chan (omega arith) h.entered) (omega arith);
        increasing =
            Increasing-append (v + 1) p.new_view_chan (All-lt p.new_view_chan before h.entered)
              h.increasing;
        timeouts = h.timeouts;
        view_changes = h.view_changes;
      })
]

pub process_remote_tmo-IsValid :
    (p : Pacemaker) (m : Tmo) → IsValid p → IsValid (process_remote_tmo p m).1
unfolding process_remote_tmo add_tmo
process_remote_tmo-IsValid p m h = elim (Bool-cases (ltb m.view p.cur_view)) [
  | inl old ↦ rw old h
  | inr new ↦ rw new (record {
    entered = h.entered;
    increasing = h.increasing;
    timeouts = add-IsValid p.timeout_controller m.view m.node_id m h.timeouts;
    view_changes = h.view_changes;
  })
]

pub process_remote_vmo-IsValid :
    (p : Pacemaker) (m : Vmo) → IsValid p → IsValid (process_remote_vmo p m).1
unfolding process_remote_vmo add_vmo
process_remote_vmo-IsValid p m h = elim (Bool-cases (ltb m.view p.cur_view)) [
  | inl old ↦ rw old h
  | inr new ↦ rw new (record {
    entered = h.entered;
    increasing = h.increasing;
    timeouts = h.timeouts;
    view_changes = add-IsValid p.view_change_controller m.view m.node_id m h.view_changes;
  })
]

step-IsValid : (p : Pacemaker) (c : Call) → IsValid p → IsValid (step p c)
unfolding step
step-IsValid p (tmo m) h = process_remote_tmo-IsValid p m h
step-IsValid p (vmo m) h = process_remote_vmo-IsValid p m h
step-IsValid p (advance v) h = advance_view-IsValid v p h

run-IsValid : (p : Pacemaker) (cs : List Call) → IsValid p → IsValid (run p cs)
unfolding run
run-IsValid p [] h = h
run-IsValid p (c ∷ cs) h = run-IsValid (step p c) cs (step-IsValid p c h)

pub new_pacemaker-IsValid : (n : ℕ) → IsValid (new_pacemaker n)
unfolding new_pacemaker
new_pacemaker-IsValid n = record {
  entered = tt;
  increasing = tt;
  timeouts = new_tally-IsValid n;
  view_changes = new_tally-IsValid n;
}

-- Whatever calls a pacemaker gets from its start, the views that it announces grow strictly, none
-- passes the current view, no node is counted twice for a view, and no view has more messages than
-- the majority that completes it.
pub run-new_pacemaker-IsValid : (n : ℕ) (cs : List Call) → IsValid (run (new_pacemaker n) cs)
run-new_pacemaker-IsValid n cs = run-IsValid (new_pacemaker n) cs (new_pacemaker-IsValid n)

pub cur_view-process_remote_tmo :
    (p : Pacemaker) (m : Tmo) → (process_remote_tmo p m).1.cur_view ≡ p.cur_view
unfolding process_remote_tmo
cur_view-process_remote_tmo p m = ground arith

pub cur_view-process_remote_vmo :
    (p : Pacemaker) (m : Vmo) → (process_remote_vmo p m).1.cur_view ≡ p.cur_view
unfolding process_remote_vmo
cur_view-process_remote_vmo p m = ground arith

pub cur_view-advance_view : (p : Pacemaker) (v : View) → p.cur_view ≤ (advance_view v p).cur_view
unfolding advance_view
cur_view-advance_view p v = ground arith

cur_view-step : (p : Pacemaker) (c : Call) → p.cur_view ≤ (step p c).cur_view
unfolding step
cur_view-step p (tmo m) = omega (arith, cur_view-process_remote_tmo p m)
cur_view-step p (vmo m) = omega (arith, cur_view-process_remote_vmo p m)
cur_view-step p (advance v) = cur_view-advance_view p v

cur_view-run : (p : Pacemaker) (cs : List Call) → p.cur_view ≤ (run p cs).cur_view
unfolding run
cur_view-run p [] = omega arith
cur_view-run p (c ∷ cs) = omega (arith, cur_view-step p c, cur_view-run (step p c) cs)

advance_view-lt : (v : View) (p : Pacemaker) → v < (advance_view v p).cur_view
unfolding advance_view
advance_view-lt v p = ground arith

-- Over any calls the view never falls, and once it was told to advance from a view it is past it.
pub cur_view-run-advance :
    (p : Pacemaker) (before after : List Call) (v : View)
    → let q = run p (before ++ advance v ∷ after) in (p.cur_view ≤ q.cur_view) × (v < q.cur_view)
unfolding run step
cur_view-run-advance p [] after v =
    omega (
      arith,
      cur_view-step p (advance v),
      advance_view-lt v p,
      cur_view-run (advance_view v p) after,
    )
cur_view-run-advance p (c ∷ cs) after v =
    omega (arith, cur_view-step p c, cur_view-run-advance (step p c) cs after v)

-- A change of the view announces at most one view, after those announced before.
pub new_view_chan-advance_view :
    (v : View) (p : Pacemaker)
    → (added : List View) × ((advance_view v p).new_view_chan ≡ p.new_view_chan ++ added)
unfolding advance_view
new_view_chan-advance_view v p = elim (Bool-cases (ltb v p.cur_view)) [
  | inl old ↦ ([], rw old (sym (append-nil p.new_view_chan)))
  | inr new ↦ ((v + 1) ∷ [], rw new refl)
]

pub new_view_chan-process_remote_tmo :
    (p : Pacemaker) (m : Tmo) → (process_remote_tmo p m).1.new_view_chan ≡ p.new_view_chan
unfolding process_remote_tmo
new_view_chan-process_remote_tmo p m = ground arith

pub new_view_chan-process_remote_vmo :
    (p : Pacemaker) (m : Vmo) → (process_remote_vmo p m).1.new_view_chan ≡ p.new_view_chan
unfolding process_remote_vmo
new_view_chan-process_remote_vmo p m = ground arith
