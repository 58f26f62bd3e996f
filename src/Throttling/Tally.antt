-- ===== src/Throttling/Tally.antt =====
-- How the multisets of `cdev_all_request_map_` follow the sensors' `cdev_status_map`.
use mathlib.Core.Option.{some-injective}
use hardware_mediatek.Base.{
  ℕ, ◌+◌, ◌≤◌, ◌≡◌, refl, Bool, false, not, ◌&&◌, none, some, List, [], ◌∷◌, arith, String, ℤ,
  eqb_ℤ, Map, lookup, insert, lookup-insert, if◌then◌else◌, str_eq, Bool-cases, Option-cases, inl,
  inr, eqb_ℤ_refl, eqb_ℤ_eq, ap, str_eq_iff, str_eq_refl, ◌↔◌, lookup-insert_self,
}
use hardware_mediatek.Throttling.Votes.{
  get_cdev_max_request, update_cdev_max_request_and_notify_if_change, insert_vote, erase, count,
  IsDescending, count-insert_vote, count-erase, erase-some, erase-IsDescending,
  insert_vote-IsDescending, begin-some,
}

-- The multiset of a cooling device, empty where the map has none.
unfoldable pub votes_of : String → Map (List ℤ) → List ℤ
votes_of c m = elim (lookup c m) [ none ↦ [] | some s ↦ s ]

-- 1 for the request `w` at the device `j`, counted at `c` and `v`.
unfoldable pub unit_at : String → ℤ → String → ℤ → ℕ
unit_at j w c v = if str_eq j c && eqb_ℤ w v then 1 else 0

unfoldable pub tally : String → ℤ → Map ℤ → ℕ
tally c v [] = 0
tally c v ((j, w) ∷ m) = unit_at j w c v + tally c v m

pub unit_at_self : (j : String) (w : ℤ) → unit_at j w j w ≡ 1
unfolding unit_at
unit_at_self j w = rw (str_eq_refl j, eqb_ℤ_refl w)

abbrev pub AllDescending : Map (List ℤ) → Type 0
AllDescending m = (c : String) → IsDescending (votes_of c m)

abbrev pub Covers : Map (List ℤ) → Map ℤ → Type 0
Covers votes m = (c : String) (v : ℤ) → tally c v m ≤ count v (votes_of c votes)

-- `old` is replaced by `new` among the requests for the device `j`.
pub record Replaced (j : String) (old new : ℤ) (votes votes' : Map (List ℤ)) : Type 0 where
  pub counts :
      (c : String) (v : ℤ)
      → count v (votes_of c votes') + unit_at j old c v
        ≡ count v (votes_of c votes) + unit_at j new c v
  pub ordered : AllDescending votes → AllDescending votes'

pub votes_of-insert :
    (j c : String) (s : List ℤ) (m : Map (List ℤ))
    → votes_of c (insert j s m) ≡ (if str_eq j c then s else votes_of c m)
unfolding votes_of
votes_of-insert j c s m = ground (arith, lookup-insert j c s m)

pub lookup_of_count :
    (c : String) (v : ℤ) (m : Map (List ℤ))
    → 1 ≤ count v (votes_of c m)
    → (s : List ℤ) × (lookup c m ≡ some s) × (votes_of c m ≡ s)
unfolding count votes_of
lookup_of_count c v m h = elim (Option-cases (lookup c m)) [
  | inl e ↦ absurd (ground arith)
  | inr (s, e) ↦ (s, e, ground arith)
]

module _ (j : String) (old new : ℤ) (s rest : List ℤ) (votes : Map (List ℤ)) where
  counts_lem :
      (c : String) (v : ℤ)
      → votes_of j votes ≡ s
      → erase old s ≡ some rest
      → count v (votes_of c (insert j (insert_vote new rest) votes)) + unit_at j old c v
        ≡ count v (votes_of c votes) + unit_at j new c v
  unfolding unit_at
  counts_lem c v e g = elim (Bool-cases (str_eq j c)) [
    | inl same ↦
        rw (votes_of-insert j c (insert_vote new rest) votes, same)
          (ground (
            arith,
            ap (λ k. votes_of k votes) (str_eq_iff j c same),
            ap (count v) (ap (λ k. votes_of k votes) (str_eq_iff j c same)),
            ap (count v) e,
            count-insert_vote v new rest,
            count-erase v old s rest g,
          ))
    | inr other ↦ rw (votes_of-insert j c (insert_vote new rest) votes, other) refl
  ]

  ordered_lem :
      (c : String)
      → votes_of j votes ≡ s
      → erase old s ≡ some rest
      → AllDescending votes
      → IsDescending (votes_of c (insert j (insert_vote new rest) votes))
  ordered_lem c e g d = elim (Bool-cases (str_eq j c)) [
    | inl same ↦
        rw (votes_of-insert j c (insert_vote new rest) votes, same)
          (insert_vote-IsDescending new rest (erase-IsDescending old s rest g (rw e at (d j))))
    | inr other ↦ rw (votes_of-insert j c (insert_vote new rest) votes, other) (d c)
  ]

same_max : (m m' : ℤ) → (not (eqb_ℤ m' m) ≡ false) ↔ (some m' ≡ some m)
same_max m m' =
    (λ e. ap some (eqb_ℤ_eq m' m (ground arith)), λ e. rw (some-injective m' m e, eqb_ℤ_refl m))

-- The update goes through where the old request is among the votes, replaces it by the new one, and
-- reports whether the greatest request has changed.
pub update_lem :
    (j : String) (old new : ℤ) (votes : Map (List ℤ))
    → 1 ≤ count old (votes_of j votes)
    → (changed : Bool) × (votes' : Map (List ℤ)) × (update_cdev_max_request_and_notify_if_change j
          old new votes
        ≡ some (changed, votes'))
      × Replaced j old new votes votes'
      × ((changed ≡ false) ↔ (get_cdev_max_request j votes' ≡ get_cdev_max_request j votes))
unfolding get_cdev_max_request update_cdev_max_request_and_notify_if_change
update_lem j old new votes h =
    let (s, found, same) = lookup_of_count j old votes h in
    let h' : 1 ≤ count old s = rw same at h in
    let (m, first) = begin-some old s h' in
    let (rest, erased) = erase-some old s h' in
    let (m', first') =
      begin-some new (insert_vote new rest)
        (ground (arith, count-insert_vote new new rest, eqb_ℤ_refl new)) in
    (
      not (eqb_ℤ m' m),
      insert j (insert_vote new rest) votes,
      rw found (rw first (rw erased (rw first'))),
      record {
        counts = λ c v. counts_lem j old new s rest votes c v same erased;
        ordered = λ d c. ordered_lem j old new s rest votes c same erased d;
      },
      rw (lookup-insert_self j (insert_vote new rest) votes)
          (rw (found, first, first') (same_max m m')),
    )
