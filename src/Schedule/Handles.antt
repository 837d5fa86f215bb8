-- ===== src/Schedule/Handles.antt =====
-- crates/nestforge-schedule/src/lib.rs: what spawning and aborting make of the list of all that was
-- spawned.
use nestforge.Base.{
  ℕ, zero, suc, ◌≡◌, refl, ap, sym, subst, ◌∙◌, Bool, true, false, List, [], ◌∷◌, ◌++◌, map,
  map-append, append_assoc, append-nil, ok, length, length-append, arith,
}
use nestforge.Schedule.{ScheduledTask, ScheduleRegistry, spawn_all, abort, abort_all}

abbrev pub marked : Bool → List ScheduledTask → List (ScheduledTask × Bool)
marked b ts = map (λ t. (t, b)) ts

-- `k` numbers from `n` on.
abbrev pub range : ℕ → ℕ → List ℕ
range n zero = []
range n (suc k) = n ∷ range (suc n) k

pub length-marked : (b : Bool) (ts : List ScheduledTask) → length (marked b ts) ≡ length ts
length-marked b [] = refl
length-marked b (t ∷ ts) = ap suc (length-marked b ts)

pub spawn_all_lem :
    (ts : List ScheduledTask) (s : ScheduleRegistry)
    → spawn_all true ts s ≡ (
      ok tt,
      record s {
        handles = record s.handles {
          held = s.handles.held ++ range (length s.spawned) (length ts);
        };
        spawned = s.spawned ++ marked false ts;
      },
    )
unfolding spawn_all
spawn_all_lem [] s = rw (append-nil s.handles.held, append-nil s.spawned) refl
spawn_all_lem (t ∷ ts) s =
    let grown : length (s.spawned ++ (t, false) ∷ []) ≡ suc (length s.spawned) =
      length-append s.spawned ((t, false) ∷ []) ∙ omega arith in
    let rest = spawn_all_lem ts (record s {
      handles = record s.handles { held = s.handles.held ++ length s.spawned ∷ [] };
      spawned = s.spawned ++ (t, false) ∷ [];
    }) in
    let handled : (s.handles.held ++ length s.spawned ∷ [])
          ++ range (length (s.spawned ++ (t, false) ∷ [])) (length ts)
        ≡ s.handles.held ++ range (length s.spawned) (suc (length ts)) =
      rw grown (
        append_assoc s.handles.held (length s.spawned ∷ [])
          (range (suc (length s.spawned)) (length ts))) in
    rest
    ∙ ap
        (λ (hs : List ℕ). (
          ok tt,
          record s {
            handles = record s.handles { held = hs };
            spawned = (s.spawned ++ (t, false) ∷ []) ++ marked false ts;
          },
        ))
        handled
    ∙ ap
        (λ (ps : List (ScheduledTask × Bool)). (
          ok tt,
          record s {
            handles = record s.handles {
              held = s.handles.held ++ range (length s.spawned) (suc (length ts));
            };
            spawned = ps;
          },
        ))
        (append_assoc s.spawned ((t, false) ∷ []) (marked false ts))

abort-dead :
    (dead : List ScheduledTask) (t : ScheduledTask) (b : Bool) (rest : List (ScheduledTask × Bool))
    → abort (length dead) (marked true dead ++ (t, b) ∷ rest) ≡ marked true dead ++ (t, true) ∷ rest
unfolding abort
abort-dead [] t b rest = refl
abort-dead (d ∷ dead) t b rest = ap (λ l. (d, true) ∷ l) (abort-dead dead t b rest)

pub abort_all-started :
    (dead started : List ScheduledTask)
    → abort_all (range (length dead) (length started)) (marked true dead ++ marked false started)
      ≡ marked true (dead ++ started)
unfolding abort_all
abort_all-started dead [] = rw (append-nil dead, append-nil (marked true dead)) refl
abort_all-started dead (t ∷ ts) =
    let grown : length (dead ++ t ∷ []) ≡ suc (length dead) =
      length-append dead (t ∷ []) ∙ omega arith in
    let shifted : marked true (dead ++ t ∷ []) ++ marked false ts
        ≡ marked true dead ++ (t, true) ∷ marked false ts =
      ap (λ (l : List (ScheduledTask × Bool)). l ++ marked false ts)
        (map-append (λ t. (t, true)) dead (t ∷ []))
      ∙ append_assoc (marked true dead) ((t, true) ∷ []) (marked false ts) in
    ap (λ (l : List (ScheduledTask × Bool)). abort_all (range (suc (length dead)) (length ts)) l)
      (abort-dead dead t false (marked false ts) ∙ sym shifted)
    ∙ subst
        (λ n.
          abort_all (range n (length ts)) (marked true (dead ++ t ∷ []) ++ marked false ts)
          ≡ marked true (dead ++ t ∷ ts))
        grown
        (abort_all-started (dead ++ t ∷ []) ts ∙ ap (marked true) (append_assoc dead (t ∷ []) ts))
