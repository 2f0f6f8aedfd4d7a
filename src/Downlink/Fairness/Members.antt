-- ===== src/Downlink/Fairness/Members.antt =====
-- internal/downlink/fairness.go: a selection holds candidates only, and no more than the limit.
use z_courier.Base.{
  ℕ, zero, suc, ◌+◌, ◌≤◌, ◌<◌, inl, inr, List, [], ◌∷◌, ◌++◌, All, All-append, length,
  length-append, Map, insert, nat_eq, leb, Bool-cases, arith, text_Eq, pair_Eq,
}
use z_courier.Downlink.Message.{Message}
use z_courier.Downlink.Fairness.{
  DeviceKey, device_key, count_of, add_to_round, place_rounds, fill_round, fill_rounds,
  fair_retry_selection, retry_selection_from_messages, normalize_limit,
}

module _ {κ} (P : Message → Type κ) where
  add_to_round-All :
      (n : ℕ) (m : Message) (rounds : List (List Message))
      → P m
      → All (All P) rounds
      → All (All P) (add_to_round n m rounds)
  unfolding add_to_round
  add_to_round-All zero m [] p h = ((p, tt), tt)
  add_to_round-All zero m (round ∷ rounds) p h = (All-append P round _ h.0 (p, tt), h.1)
  add_to_round-All (suc n) m [] p h = (tt, add_to_round-All n m [] p tt)
  add_to_round-All (suc n) m (round ∷ rounds) p h = (h.0, add_to_round-All n m rounds p h.1)

  place_rounds-All :
      (limit : ℕ) (ms : List Message) (positions : Map DeviceKey ℕ) (rounds : List (List Message))
      → All P ms
      → All (All P) rounds
      → All (All P) (place_rounds limit ms positions rounds)
  unfolding place_rounds
  place_rounds-All limit [] positions rounds p h = h
  place_rounds-All limit (m ∷ ms) positions rounds p h =
      let position = count_of (device_key m) positions in
      let positions' = insert (device_key m) (position + 1) positions in
      elim (Bool-cases (leb limit position)) [
        | inl full ↦ rw full (place_rounds-All limit ms positions' rounds p.1 h)
        | inr room ↦ rw room (
            place_rounds-All limit ms positions' (add_to_round position m rounds) p.1
              (add_to_round-All position m rounds p.0 h))
      ]

  fill_round-All :
      (limit : ℕ) (selected xs : List Message)
      → All P selected
      → All P xs
      → All P (fill_round limit selected xs)
  unfolding fill_round
  fill_round-All limit selected [] p h = p
  fill_round-All limit selected (x ∷ xs) p h =
      let p' = All-append P selected (x ∷ []) p (h.0, tt) in
      elim (Bool-cases (nat_eq (length (selected ++ (x ∷ []))) limit)) [
        | inl full ↦ rw full p'
        | inr room ↦ rw room (fill_round-All limit (selected ++ (x ∷ [])) xs p' h.1)
      ]

  fill_rounds-All :
      (limit : ℕ) (selected : List Message) (rounds : List (List Message))
      → All P selected
      → All (All P) rounds
      → All P (fill_rounds limit selected rounds)
  unfolding fill_rounds
  fill_rounds-All limit selected [] p h = p
  fill_rounds-All limit selected (round ∷ rounds) p h =
      let p' = fill_round-All limit selected round p h.0 in
      elim (Bool-cases (nat_eq (length (fill_round limit selected round)) limit)) [
        | inl full ↦ rw full p'
        | inr room ↦ rw room (fill_rounds-All limit (fill_round limit selected round) rounds p' h.1)
      ]

  pub fair_retry_selection-All :
      (candidates : List Message) (limit : ℕ)
      → All P candidates
      → All P (fair_retry_selection candidates limit).messages
  unfolding fair_retry_selection retry_selection_from_messages
  fair_retry_selection-All candidates limit h =
      fill_rounds-All (normalize_limit limit) [] _ tt (place_rounds-All _ candidates [] [] h tt)

fill_round-le :
    (limit : ℕ) (selected xs : List Message)
    → length selected < limit
    → length (fill_round limit selected xs) ≤ limit
unfolding fill_round
fill_round-le limit selected [] h = omega arith
fill_round-le limit selected (x ∷ xs) h =
    ground (arith, length-append selected (x ∷ []), fill_round-le limit (selected ++ (x ∷ [])) xs)

fill_rounds-le :
    (limit : ℕ) (selected : List Message) (rounds : List (List Message))
    → length selected < limit
    → length (fill_rounds limit selected rounds) ≤ limit
unfolding fill_rounds
fill_rounds-le limit selected [] h = omega arith
fill_rounds-le limit selected (round ∷ rounds) h = ground (
  arith,
  fill_round-le limit selected round,
  fill_rounds-le limit (fill_round limit selected round) rounds,
)

-- A fair selection is no longer than its limit, which is 100 where none is given.
pub length-fair_retry_selection-le :
    (candidates : List Message) (limit : ℕ)
    → length (fair_retry_selection candidates limit).messages ≤ normalize_limit limit
unfolding fair_retry_selection retry_selection_from_messages
length-fair_retry_selection-le candidates limit =
    fill_rounds-le (normalize_limit limit) [] _ (ground arith)
