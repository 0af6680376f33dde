-- ===== src/Services/SessionStore/Bounded.antt =====
-- src/services/session-store.ts: the store stays within its cap.
use mathlib.Core.Bool.{true≢false}
use mathlib.Core.Option.{none-ne-some}
use bitsby.Prelude.{
  ℕ, suc, ◌+◌, ◌≤◌, ◌<◌, ◌≡◌, refl, true, Option, none, some, List, [], ◌∷◌, ltb, leb, list_eq,
  list_eq_refl, length, Bool-cases, inl, inr, arith, leb→le, sym, ap, ◌⊎◌, ◌∙◌, All,
}
use bitsby.Services.SessionStore.{
  SessionId, Session, SessionStore, new_store, expiry_in, delete_in, set_in, oldest_from,
  evict_oldest, create_session, validate_entry, validate_session, destroy_session, delete_others,
  destroy_all_except, destroy_all, size, Step, creates, validates, destroys, destroys_others,
  destroys_all, Steps, stay, next, mints,
}

length-delete_in :
    (id : SessionId) (sessions : List Session) → length (delete_in id sessions) ≤ length sessions
length-delete_in id [] = omega arith
length-delete_in id (s ∷ sessions) = elim (Bool-cases (list_eq s.id id)) [
  | inl h ↦ rw h (omega (arith, length-delete_in id sessions))
  | inr h ↦ rw h (omega (arith, length-delete_in id sessions))
]

-- A stored id keeps the length.
length-set_in :
    (id : SessionId) (e : ℕ) (sessions : List Session)
    → length (set_in id e sessions) ≤ suc (length sessions)
length-set_in id e [] = omega arith
length-set_in id e (s ∷ sessions) = elim (Bool-cases (list_eq s.id id)) [
  | inl h ↦ rw h (omega arith)
  | inr h ↦ rw h (omega (arith, length-set_in id e sessions))
]

length-set_in_known :
    (id : SessionId) (e t : ℕ) (sessions : List Session)
    → expiry_in sessions id ≡ some t
    → length (set_in id e sessions) ≡ length sessions
length-set_in_known id e t [] h = absurd (none-ne-some t h)
length-set_in_known id e t (s ∷ sessions) h = elim (Bool-cases (list_eq s.id id)) [
  | inl k ↦ rw k refl
  | inr k ↦ rw k (ap suc (length-set_in_known id e t sessions (simp k at h)))
]

-- The oldest of some sessions is one of them.
abbrev pub Has : SessionId → List Session → Type 0
Has id [] = ⊥
Has id (s ∷ sessions) = (list_eq s.id id ≡ true) ⊎ Has id sessions

abbrev pub NoOlder : ℕ → List Session → Type 0
NoOlder t = All (λ s. t ≤ s.expires_at)

NoOlder-le : (t u : ℕ) (sessions : List Session) → t ≤ u → NoOlder u sessions → NoOlder t sessions
NoOlder-le t u [] le h = tt
NoOlder-le t u (s ∷ sessions) le h = (omega (arith, h.0), NoOlder-le t u sessions le h.1)

abbrev pub Oldest : Session → Session → List Session → Type 0
Oldest x o sessions =
    ((x ≡ o) ⊎ Has x.id sessions) × (x.expires_at ≤ o.expires_at) × NoOlder x.expires_at sessions

pub oldest_from-Oldest :
    (o : Session) (sessions : List Session)
    → (x : Session) × (oldest_from (some o) sessions ≡ some x) × Oldest x o sessions
oldest_from-Oldest o [] = (o, refl, (inl refl, omega arith, tt))
oldest_from-Oldest o (s ∷ sessions) = elim (Bool-cases (ltb s.expires_at o.expires_at)) [
  | inl h ↦
      let (x, at, (here, le, older)) = oldest_from-Oldest s sessions in
      rw h (
        x,
        at,
        (
          inr (elim here [
            | inl e ↦ inl (ap (λ y. list_eq s.id y.id) e ∙ list_eq_refl s.id)
            | inr k ↦ inr k
          ]),
          ground arith,
          (le, older),
        ),
      )
  | inr h ↦
      let (x, at, (here, le, older)) = oldest_from-Oldest o sessions in
      rw h (x, at, (elim here [ inl e ↦ inl e | inr k ↦ inr (inr k) ], le, (ground arith, older)))
]

length-delete_in-Has :
    (id : SessionId) (sessions : List Session)
    → Has id sessions
    → length (delete_in id sessions) < length sessions
length-delete_in-Has id [] h = absurd h
length-delete_in-Has id (s ∷ sessions) h = elim (Bool-cases (list_eq s.id id)) [
  | inl k ↦ rw k (omega (arith, length-delete_in id sessions))
  | inr k ↦ elim h [
    | inl e ↦ absurd (true≢false (sym e ∙ k))
    | inr r ↦ rw k (omega (arith, length-delete_in-Has id sessions r))
  ]
]

length-evict_oldest :
    (sessions : List Session)
    → 0 < length sessions
    → length (evict_oldest sessions) < length sessions
length-evict_oldest [] h = absurd (omega arith)
length-evict_oldest (s ∷ sessions) h =
    let (x, at, (here, _, _)) = oldest_from-Oldest s sessions in
    rw at (
      length-delete_in-Has x.id (s ∷ sessions) (elim here [
        | inl e ↦ inl (ap (λ y. list_eq s.id y.id) e ∙ list_eq_refl s.id)
        | inr k ↦ inr k
      ]))

length-delete_others :
    (keep : SessionId) (keys sessions : List Session)
    → length (delete_others keep keys sessions) ≤ length sessions
length-delete_others keep [] sessions = omega arith
length-delete_others keep (k ∷ keys) sessions = elim (Bool-cases (list_eq k.id keep)) [
  | inl h ↦ rw h (length-delete_others keep keys sessions)
  | inr h ↦ rw h (
      omega (
        arith,
        length-delete_others keep keys (delete_in k.id sessions),
        length-delete_in k.id sessions,
      ))
]

create-Fits :
    (id : SessionId) (now : ℕ) (s : SessionStore)
    → 0 < s.max_sessions
    → size s ≤ s.max_sessions
    → size (create_session id now s).1 ≤ s.max_sessions
unfolding size create_session
create-Fits id now s positive fits = elim (Bool-cases (leb s.max_sessions (length s.sessions))) [
  | inl h ↦
      let full = leb→le s.max_sessions (length s.sessions) h in
      rw h (
        omega (
          arith,
          length-set_in id (now + s.ttl_ms) (evict_oldest s.sessions),
          length-evict_oldest s.sessions (omega (arith, full)),
        ))
  | inr h ↦
      let room : length s.sessions < s.max_sessions = ground arith in
      rw h (omega (arith, length-set_in id (now + s.ttl_ms) s.sessions))
]

validate-Fits :
    (id : SessionId) (now : ℕ) (s : SessionStore) → size (validate_session id now s).1 ≤ size s
unfolding size validate_session
validate-Fits id now s = on (expiry_in s.sessions id) refl
  where
    on :
        (t : Option ℕ)
        → expiry_in s.sessions id ≡ t
        → length (validate_entry id now s t).1.sessions ≤ length s.sessions
    on none h = omega arith
    on (some t) h = elim (Bool-cases (leb t now)) [
      | inl k ↦ rw k (length-delete_in id s.sessions)
      | inr k ↦ rw k (omega (arith, length-set_in_known id (now + s.ttl_ms) t s.sessions h))
    ]

validate-kept :
    (id : SessionId) (now : ℕ) (s : SessionStore) (t : Option ℕ)
    → (validate_entry id now s t).1.max_sessions ≡ s.max_sessions
validate-kept id now s none = refl
validate-kept id now s (some t) = elim (Bool-cases (leb t now)) [
  | inl k ↦ rw k refl
  | inr k ↦ rw k refl
]

Step-Fits :
    (s t : SessionStore) (minted : Option SessionId)
    → Step s minted t
    → 0 < s.max_sessions
    → size s ≤ s.max_sessions
    → (size t ≤ s.max_sessions) × (t.max_sessions ≡ s.max_sessions)
unfolding size create_session validate_session destroy_session destroy_all_except destroy_all
Step-Fits s t minted (creates id now _) positive fits = (create-Fits id now s positive fits, refl)
Step-Fits s t minted (validates id now _) positive fits =
    (omega (arith, validate-Fits id now s, fits), validate-kept id now s (expiry_in s.sessions id))
Step-Fits s t minted (destroys id _) positive fits =
    (omega (arith, length-delete_in id s.sessions, fits), refl)
Step-Fits s t minted (destroys_others id _) positive fits =
    (omega (arith, length-delete_others id s.sessions s.sessions, fits), refl)
Step-Fits s t minted (destroys_all _) positive fits = (omega arith, refl)

Steps-Fits :
    (s t : SessionStore) (ids : List SessionId)
    → Steps s ids t
    → 0 < s.max_sessions
    → size s ≤ s.max_sessions
    → (size t ≤ s.max_sessions) × (t.max_sessions ≡ s.max_sessions)
Steps-Fits s t ids (stay _) positive fits = (fits, refl)
Steps-Fits s t ids (next _ m _ _ one more) positive fits =
    let a = Step-Fits s m none one positive fits in
    let b = Steps-Fits m t ids more (omega (arith, a.1)) (omega (arith, a.0, a.1)) in
    (omega (arith, a.1, b.0), b.1 ∙ a.1)
Steps-Fits s t ids (mints _ m _ id rest one more) positive fits =
    let a = Step-Fits s m (some id) one positive fits in
    let b = Steps-Fits m t rest more (omega (arith, a.1)) (omega (arith, a.0, a.1)) in
    (omega (arith, a.1, b.0), b.1 ∙ a.1)

-- With a positive cap, whatever operations follow on an empty store and whatever ids are drawn,
-- the store never holds more sessions than the cap.
pub size-bounded :
    (ttl_ms max_sessions : ℕ) (ids : List SessionId) (s : SessionStore)
    → 0 < max_sessions
    → Steps (new_store ttl_ms max_sessions) ids s
    → size s ≤ max_sessions
unfolding size
size-bounded ttl_ms max_sessions ids s positive made =
    (Steps-Fits (new_store ttl_ms max_sessions) s ids made positive (omega arith)).0
