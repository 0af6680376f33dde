-- ===== src/Bus/Claimants.antt =====
-- src/services/collision-validator.ts: the cards that claim a port or an IRQ.
use mathlib.Core.List.{append_assoc, append-nil}
use bitsby.Prelude.{
  ◌||◌, Bool, true, false, ℕ, suc, ◌≤◌, ◌≡◌, refl, sym, ap, ◌∙◌, false, Option, none, some, List,
  [], ◌∷◌, ◌++◌, ◌==◌, ==_iff, ltb, leb, length, if◌then◌else◌, Bool-cases, inl, inr, arith, All,
  member, add_to, Distinct, add_to-Distinct,
}
use bitsby.Bus.Profile.{CardClaim}
use bitsby.Bus.Validator.{
  Collision, insert_by, sort_by, set_from, Claimed, claim_key, claim_keys, claimed_from, shared,
  port_keys, option_keys, irq_keys, shared_by,
}

-- The cards, by their ids, that claim a key.
abbrev pub claimants : (CardClaim → List ℕ) → ℕ → List CardClaim → List (List ℕ)
claimants keys_of k [] = []
claimants keys_of k (c ∷ claims) =
    (if member k (keys_of c) then c.card_id ∷ [] else []) ++ claimants keys_of k claims

abbrev ids_of : ℕ → List Claimed → List (List ℕ)
ids_of k [] = []
ids_of k (e ∷ entries) = if k == e.key then e.ids else ids_of k entries

ids_of-claim_key :
    (id : List ℕ) (k p : ℕ) (entries : List Claimed)
    → ids_of p (claim_key id k entries) ≡ ids_of p entries ++ (if p == k then id ∷ [] else [])
ids_of-claim_key id k p [] = elim (Bool-cases (p == k)) [ inl h ↦ rw h refl | inr h ↦ rw h refl ]
ids_of-claim_key id k p (e ∷ entries) = elim (Bool-cases (k == e.key)) [
  | inl h ↦
      let same : k ≡ e.key = (==_iff k e.key).0 h in
      elim (Bool-cases (p == e.key)) [
        | inl d ↦ rw (h, d, same, d) refl
        | inr d ↦ rw (h, d, same, d) (sym (append-nil (ids_of p entries)))
      ]
  | inr h ↦ elim (Bool-cases (p == e.key)) [
    | inl d ↦
        let apart : (p == k) ≡ false = ground arith in rw (h, d, apart) (sym (append-nil e.ids))
    | inr d ↦ rw (h, d) (ids_of-claim_key id k p entries)
  ]
]

ids_of-claim_keys :
    (id : List ℕ) (keys : List ℕ) (p : ℕ) (entries : List Claimed)
    → Distinct keys
    → ids_of p (claim_keys id keys entries)
      ≡ ids_of p entries ++ (if member p keys then id ∷ [] else [])
ids_of-claim_keys id [] p entries d = sym (append-nil (ids_of p entries))
ids_of-claim_keys id (k ∷ keys) p entries d = elim (Bool-cases (p == k)) [
  | inl h ↦
      let same : p ≡ k = (==_iff p k).0 h in
      let first = ids_of-claim_key id k p entries in
      let rest = ids_of-claim_keys id keys p (claim_key id k entries) d.1 in
      let absent : member p keys ≡ false = ap (λ x. member x keys) same ∙ d.0 in
      rw h (
        rest
        ∙ ap (λ b. ids_of p (claim_key id k entries) ++ (if b then id ∷ [] else [])) absent
        ∙ append-nil (ids_of p (claim_key id k entries))
        ∙ first
        ∙ ap (λ b. ids_of p entries ++ (if b then id ∷ [] else [])) h)
  | inr h ↦
      let first = ids_of-claim_key id k p entries in
      let kept : ids_of p (claim_key id k entries) ≡ ids_of p entries =
        first
        ∙ ap (λ b. ids_of p entries ++ (if b then id ∷ [] else [])) h
        ∙ append-nil (ids_of p entries) in
      rw h (
        ids_of-claim_keys id keys p (claim_key id k entries) d.1
        ∙ ap (λ l. l ++ (if member p keys then id ∷ [] else [])) kept)
]

-- Each card's keys are distinct.
abbrev DistinctKeys : (CardClaim → List ℕ) → Type 0
DistinctKeys keys_of = (c : CardClaim) → Distinct (keys_of c)

ids_of-claimed_from :
    (keys_of : CardClaim → List ℕ) (claims : List CardClaim) (p : ℕ) (entries : List Claimed)
    → DistinctKeys keys_of
    → ids_of p (claimed_from keys_of claims entries)
      ≡ ids_of p entries ++ claimants keys_of p claims
ids_of-claimed_from keys_of [] p entries d = sym (append-nil (ids_of p entries))
ids_of-claimed_from keys_of (c ∷ claims) p entries d =
    ids_of-claimed_from keys_of claims p (claim_keys c.card_id (keys_of c) entries) d
    ∙ ap (λ l. l ++ claimants keys_of p claims)
        (ids_of-claim_keys c.card_id (keys_of c) p entries (d c))
    ∙ append_assoc (ids_of p entries) (if member p (keys_of c) then c.card_id ∷ [] else [])
        (claimants keys_of p claims)

-- An entry of one card at most.
abbrev Single : Claimed → Type 0
Single e = length e.ids ≤ 1

insert_by-All :
    (e : Claimed) (entries : List Claimed)
    → All Single (insert_by (λ x. x.key) e entries)
    → Single e × All Single entries
insert_by-All e [] h = h
insert_by-All e (x ∷ entries) h = elim (Bool-cases (leb e.key x.key)) [
  | inl k ↦ (rw k at h)
  | inr k ↦
      let h' : Single x × All Single (insert_by (λ y. y.key) e entries) = (rw k at h) in
      let rest = insert_by-All e entries h'.1 in (rest.0, (h'.0, rest.1))
]

sort_by-All :
    (entries : List Claimed) → All Single (sort_by (λ x. x.key) entries) → All Single entries
sort_by-All [] h = tt
sort_by-All (e ∷ entries) h =
    let a = insert_by-All e (sort_by (λ x. x.key) entries) h in (a.0, sort_by-All entries a.1)

shared-All :
    (collision : ℕ → List (List ℕ) → Collision) (entries : List Claimed)
    → length (shared collision entries) ≡ 0
    → All Single entries
shared-All collision [] h = tt
shared-All collision (e ∷ entries) h = elim (Bool-cases (ltb 1 (length e.ids))) [
  | inl k ↦
      let h' : suc (length (shared collision entries)) ≡ 0 = (rw k at h) in
      absurd (omega (arith, h'))
  | inr k ↦ (ground arith, shared-All collision entries (rw k at h))
]

ids_of-All : (p : ℕ) (entries : List Claimed) → All Single entries → length (ids_of p entries) ≤ 1
ids_of-All p [] h = omega arith
ids_of-All p (e ∷ entries) h = elim (Bool-cases (p == e.key)) [
  | inl k ↦ rw k h.0
  | inr k ↦ rw k (ids_of-All p entries h.1)
]

-- Without a collision, no key has two claimants.
pub shared_by-claimants :
    (collision : ℕ → List (List ℕ) → Collision) (keys_of : CardClaim → List ℕ)
    (claims : List CardClaim) (k : ℕ)
    → DistinctKeys keys_of
    → length (shared_by collision keys_of claims) ≡ 0
    → length (claimants keys_of k claims) ≤ 1
shared_by-claimants collision keys_of claims k d none_shared =
    let entries = claimed_from keys_of claims [] in
    let at_most =
      ids_of-All k entries
        (sort_by-All entries (shared-All collision (sort_by (λ e. e.key) entries) none_shared)) in
    let same = ap length (ids_of-claimed_from keys_of claims k [] d) in omega (arith, at_most, same)

set_from-Distinct : (set xs : List ℕ) → Distinct set → Distinct (set_from set xs)
set_from-Distinct set [] d = d
set_from-Distinct set (x ∷ xs) d = set_from-Distinct (add_to x set) xs (add_to-Distinct x set d)

pub port_keys-Distinct : (c : CardClaim) → Distinct (port_keys c)
port_keys-Distinct c = set_from-Distinct [] c.ports tt

option_keys-Distinct : (k : Option ℕ) → Distinct (option_keys k)
option_keys-Distinct none = tt
option_keys-Distinct (some k) = (refl, tt)

pub irq_keys-Distinct : (c : CardClaim) → Distinct (irq_keys c)
irq_keys-Distinct c = option_keys-Distinct c.irq

member-add_to : (k x : ℕ) (set : List ℕ) → member k (add_to x set) ≡ member k set || (k == x)
member-add_to k x set = elim (Bool-cases (member x set)) [
  | inl h ↦ elim (Bool-cases (k == x)) [
    | inl e ↦
        let same : k ≡ x = (==_iff k x).0 e in
        let here : member k set ≡ true = ap (λ y. member y set) same ∙ h in rw (h, here) refl
    | inr e ↦ rw (h, e) (sym (or_false (member k set)))
  ]
  | inr h ↦ rw h (member-snoc k x set)
]
  where
    or_false : (b : Bool) → b || false ≡ b
    or_false true = refl
    or_false false = refl

    member-snoc : (k x : ℕ) (set : List ℕ) → member k (set ++ (x ∷ [])) ≡ member k set || (k == x)
    member-snoc k x [] = elim (Bool-cases (k == x)) [ inl e ↦ rw e refl | inr e ↦ rw e refl ]
    member-snoc k x (y ∷ set) = elim (Bool-cases (k == y)) [
      | inl e ↦ rw e refl
      | inr e ↦ rw e (member-snoc k x set)
    ]

member-set_from :
    (k : ℕ) (set xs : List ℕ) → member k (set_from set xs) ≡ member k set || member k xs
member-set_from k set [] = or_false (member k set)
  where
    or_false : (b : Bool) → b ≡ b || false
    or_false true = refl
    or_false false = refl
member-set_from k set (x ∷ xs) =
    member-set_from k (add_to x set) xs
    ∙ ap (λ b. b || member k xs) (member-add_to k x set)
    ∙ or_if (member k set) (k == x) (member k xs)
  where
    or_if : (a b c : Bool) → (a || b) || c ≡ a || (if b then true else c)
    or_if true b c = refl
    or_if false true c = refl
    or_if false false c = refl

-- The claimants of a port, by the ports as they are claimed.
pub claimants-ports :
    (p : ℕ) (claims : List CardClaim)
    → claimants port_keys p claims ≡ claimants (λ c. c.ports) p claims
claimants-ports p [] = refl
claimants-ports p (c ∷ claims) =
    ap (λ b. (if b then c.card_id ∷ [] else []) ++ claimants port_keys p claims)
      (member-set_from p [] c.ports)
    ∙ ap (λ l. (if member p c.ports then c.card_id ∷ [] else []) ++ l) (claimants-ports p claims)
