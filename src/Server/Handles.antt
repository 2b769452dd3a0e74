-- ===== src/Server/Handles.antt =====
-- The handles of `ActiveInfo` of src/server.rs, and the task that waits for them.
use sccache.Prelude.{
  count_cases, ℕ, zero, suc, ◌+◌, ◌<◌, ◌≡◌, refl, sym, ◌∙◌, subst, List, [], ◌∷◌, Option, none,
  some, true, false, ◌&&◌, if◌then◌else◌, ◌==◌, ==_iff, ltb, u64, u64_mod, arith, Bool-cases,
  Option-cases, inl, inr, ◌⊎◌, ◌>>=◌, ◌↔◌, All,
}
use sccache.Server.Active.{Info, new, clone, drop, poll}

pub data Op : Type 0 where
  clones : Op
  drops : Op
  polls : ℕ → Op

-- The information, how many handles are alive, and the tasks that have been told to wait and have
-- not been unparked since, the latest first.
pub record Handles : Type 0 where
  pub info : Info
  pub alive : ℕ
  pub waiting : List ℕ

unfoldable pub start : Handles
unfolding new
start = record { info = new; alive = 1; waiting = [] }

unfoldable pub without : ℕ → List ℕ → List ℕ
without task [] = []
without task (t ∷ ts) = let rest = without task ts in if t == task then rest else t ∷ rest

-- Only a handle can be cloned or dropped, and fewer than 2⁶⁴ fit in memory.
unfoldable pub step : Handles → Op → Option Handles
unfolding clone drop poll without
step h clones =
    if ltb 0 h.alive && ltb (h.alive + 1) u64_mod
    then some (record h { info = clone h.info; alive = h.alive + 1 })
    else none
step h drops = elim h.alive [
  | zero ↦ none
  | suc n ↦
      let (info, unparked) = drop h.info in
      some (record {
        info = info;
        alive = n;
        waiting = elim unparked [ none ↦ h.waiting | some task ↦ without task h.waiting ];
      })
]
step h (polls task) =
    let (info, is_ready) = poll task h.info in
    some (record h { info = info; waiting = if is_ready then h.waiting else task ∷ h.waiting })

unfoldable pub run : Handles → List Op → Option Handles
unfolding step
run h [] = some h
run h (op ∷ ops) = do h' ← step h op; run h' ops

-- The server's wait is polled by the task that owns it.
abbrev pub PolledBy : ℕ → Op → Type 0
PolledBy owner clones = Unit
PolledBy owner drops = Unit
PolledBy owner (polls task) = task ≡ owner

record Counted (owner : ℕ) (h : Handles) : Type 0 where
  count_eq : h.info.active ≡ h.alive
  small : h.alive < u64_mod
  owned : All (λ t. t ≡ owner) h.waiting
  blocked : (h.info.blocker ≡ some owner) ⊎ (h.waiting ≡ [])
  none_left : h.alive ≡ 0 → h.waiting ≡ []

no_handles : {h : Handles} → ◌≡◌ {A = Option Handles} none (some h) → ⊥
no_handles e = cc

same_handles : {g h : Handles} → some g ≡ some h → g ≡ h
same_handles e = cc

step-clones :
    (owner : ℕ) (h h' : Handles) → Counted owner h → step h clones ≡ some h' → Counted owner h'
unfolding step clone
step-clones owner h h' c e = elim (Bool-cases (ltb 0 h.alive && ltb (h.alive + 1) u64_mod)) [
  | inr no_room ↦ absurd (no_handles (rw no_room at e))
  | inl room ↦
      let bound : h.alive + 1 < u64_mod = ground (arith, room) in
      subst (Counted owner) (same_handles (rw room at e)) (record {
        count_eq = omega (arith, c.count_eq, bound);
        small = bound;
        owned = c.owned;
        blocked = c.blocked;
        none_left = λ z. absurd (omega (arith, z));
      })
]

abbrev dropped : Info → ℕ → Info × Option ℕ
dropped i n =
    if n == 0
    then (record { active = n; blocker = none }, i.blocker)
    else (record i { active = n }, none)

drop_lem : (i : Info) (n : ℕ) → i.active ≡ suc n → suc n < u64_mod → drop i ≡ dropped i n
unfolding drop
drop_lem i n e h =
    let same : u64 (i.active + 18446744073709551615) ≡ n = omega (arith, e, h) in rw same refl

abbrev after_drop : Handles → ℕ → Info × Option ℕ → Handles
after_drop h n r = record {
  info = r.0;
  alive = n;
  waiting = elim r.1 [ none ↦ h.waiting | some task ↦ without task h.waiting ];
}

without-owned : (owner : ℕ) (ts : List ℕ) → All (λ t. t ≡ owner) ts → without owner ts ≡ []
unfolding without
without-owned owner [] h = refl
without-owned owner (t ∷ ts) h =
    let same : (t == owner) ≡ true = (==_iff t owner).1 h.0 in rw same (without-owned owner ts h.1)

abbrev unparked : List ℕ → Option ℕ → List ℕ
unparked ts o = elim o [ none ↦ ts | some task ↦ without task ts ]

nobody : (o : Option ℕ) (ts : List ℕ) → ts ≡ [] → unparked ts o ≡ []
unfolding without
nobody none ts h = h
nobody (some task) ts h = rw h refl

all_unparked : (owner : ℕ) (h : Handles) → Counted owner h → unparked h.waiting h.info.blocker ≡ []
all_unparked owner h c = elim c.blocked [
  | inl b ↦ rw b (without-owned owner h.waiting c.owned)
  | inr e ↦ nobody h.info.blocker h.waiting e
]

after_drop-Counted :
    (owner : ℕ) (h : Handles) (n : ℕ)
    → Counted owner h
    → suc n < u64_mod
    → ((n == 0) ≡ true) ⊎ ((n == 0) ≡ false)
    → Counted owner (after_drop h n (dropped h.info n))
after_drop-Counted owner h n c small (inl last) =
    let gone = all_unparked owner h c in
    rw last (record {
      count_eq = refl;
      small = omega (arith, small);
      owned = subst (All (λ t. t ≡ owner)) (sym gone) tt;
      blocked = inr gone;
      none_left = λ z. gone;
    })
after_drop-Counted owner h n c small (inr more) = rw more (record {
  count_eq = refl;
  small = omega (arith, small);
  owned = c.owned;
  blocked = c.blocked;
  none_left = λ z. absurd (ground (arith, more, z));
})

step-drops :
    (owner : ℕ) (h h' : Handles) → Counted owner h → step h drops ≡ some h' → Counted owner h'
unfolding step drop
step-drops owner h h' c e = elim (count_cases h.alive) [
  | inl z ↦ absurd (no_handles (rw z at e))
  | inr (n, q) ↦
      let small : suc n < u64_mod = subst (λ m. m < u64_mod) q c.small in
      subst (Counted owner) (same_handles (rw (q, drop_lem h.info n (c.count_eq ∙ q) small) at e))
        (after_drop-Counted owner h n c small (Bool-cases (n == 0)))
]

step-polls :
    (owner : ℕ) (h h' : Handles)
    → Counted owner h
    → step h (polls owner) ≡ some h'
    → Counted owner h'
unfolding step poll
step-polls owner h h' c e = elim (Bool-cases (h.info.active == 0)) [
  | inl none_alive ↦ subst (Counted owner) (same_handles (rw none_alive at e)) c
  | inr more ↦ subst (Counted owner) (same_handles (rw more at e)) (record {
    count_eq = c.count_eq;
    small = c.small;
    owned = (refl, c.owned);
    blocked = inl refl;
    none_left = λ z. absurd (ground (arith, more, z, c.count_eq));
  })
]

step-Counted :
    (owner : ℕ) (op : Op) (h h' : Handles)
    → Counted owner h
    → PolledBy owner op
    → step h op ≡ some h'
    → Counted owner h'
step-Counted owner clones h h' c p e = step-clones owner h h' c e
step-Counted owner drops h h' c p e = step-drops owner h h' c e
step-Counted owner (polls task) h h' c p e =
    step-polls owner h h' c (subst (λ t. step h (polls t) ≡ some h') p e)

run-Counted :
    (owner : ℕ) (ops : List Op) (h h' : Handles)
    → Counted owner h
    → All (PolledBy owner) ops
    → run h ops ≡ some h'
    → Counted owner h'
unfolding run
run-Counted owner [] h h' c p e = subst (Counted owner) (same_handles e) c
run-Counted owner (op ∷ ops) h h' c p e = elim (Option-cases (step h op)) [
  | inl stuck ↦ absurd (no_handles (rw (stuck, run, ◌>>=◌) at e))
  | inr (g, q) ↦
      run-Counted owner ops g h' (step-Counted owner op h g c p.0 q) p.1 (rw (q, run, ◌>>=◌) at e)
]

poll-ready : (i : Info) (task : ℕ) → ((poll task i).1 ≡ true) ↔ (i.active ≡ 0)
unfolding poll
poll-ready i task = elim (Bool-cases (i.active == 0)) [
  | inl z ↦ (λ h. (==_iff i.active 0).0 z, λ h. rw z refl)
  | inr more ↦
      (λ h. absurd (ground (arith, more, (rw more at h))), λ h. absurd (ground (arith, more, h)))
]

-- Whatever handles are cloned and dropped and however often the wait is polled by the task that owns
-- it, the wait is ready exactly when no handle is alive, and no wake-up is lost: once no handle is
-- alive, the owner is not left with an answer to wait after which it has not been unparked.
pub run-ready :
    (owner : ℕ) (ops : List Op) (h : Handles)
    → All (PolledBy owner) ops
    → run start ops ≡ some h
    → (((poll owner h.info).1 ≡ true) ↔ (h.alive ≡ 0)) × (h.alive ≡ 0 → h.waiting ≡ [])
unfolding start new
run-ready owner ops h p e =
    let first : Counted owner start = record {
      count_eq = refl;
      small = omega arith;
      owned = tt;
      blocked = inr refl;
      none_left = λ z. refl;
    } in
    let c = run-Counted owner ops start h first p e in
    let iff = poll-ready h.info owner in
    ((λ r. sym c.count_eq ∙ iff.0 r, λ z. iff.1 (c.count_eq ∙ z)), c.none_left)
