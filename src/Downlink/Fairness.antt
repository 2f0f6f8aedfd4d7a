-- ===== src/Downlink/Fairness.antt =====
-- internal/downlink/fairness.go: a bounded batch of candidates, chosen round-robin by device.
pub mod Members
use z_courier.Base.{
  ℕ, zero, suc, ◌+◌, ◌-◌, ◌*◌, ◌/◌, ◌^◌, Bool, ◌&&◌, ◌||◌, not, Option, none, some, List, [], ◌∷◌,
  ◌++◌, Text, text_Eq, pair_Eq, Map, lookup, insert, length, nat_eq, ltb, leb, if◌then◌else◌,
}
use z_courier.Downlink.Message.{Message}

-- The largest `int` of a 64-bit platform.
abbrev pub max_int : ℕ
max_int = 2 ^ 63 - 1

-- `RetryFairness.CandidateLimit`; the fairness comes as its multiplier.
unfoldable pub candidate_limit : ℕ → ℕ → ℕ → ℕ
candidate_limit candidate_multiplier scan max_pending_per_device =
    let scan_limit = if nat_eq scan 0 then 100 else scan in
    let multiplier = if nat_eq candidate_multiplier 0 then 4 else candidate_multiplier in
    let product =
      if leb scan_limit (max_int / multiplier) then scan_limit * multiplier else max_int in
    let window =
      if leb max_pending_per_device (max_int - scan_limit)
      then max_pending_per_device + scan_limit
      else max_int in
    let limit = if ltb 0 max_pending_per_device && ltb product window then window else product in
    if ltb limit scan_limit then scan_limit else limit

pub data SelectionMode : Type 0 where
  fifo fair : SelectionMode

pub record RetrySelection : Type 0 where
  pub messages : List Message
  pub mode : SelectionMode
  pub device_count : ℕ
  pub max_per_device : ℕ

abbrev pub DeviceKey : Type 0
DeviceKey = Text × Text

abbrev pub device_key : Message → DeviceKey
device_key m = (m.client_id, m.device_id)

-- A Go map of numbers gives 0 for a key that it lacks.
abbrev pub count_of : DeviceKey → Map DeviceKey ℕ → ℕ
count_of k m = elim (lookup k m) [ none ↦ 0 | some n ↦ n ]

-- `for len(rounds) <= position { append nil }; rounds[position] = append(rounds[position], …)`.
-- A candidate stands where the source has its index.
unfoldable pub add_to_round {ℓ} : {A : Type ℓ} → ℕ → A → List (List A) → List (List A)
add_to_round zero x [] = (x ∷ []) ∷ []
add_to_round zero x (round ∷ rounds) = (round ++ (x ∷ [])) ∷ rounds
add_to_round (suc n) x [] = [] ∷ add_to_round n x []
add_to_round (suc n) x (round ∷ rounds) = round ∷ add_to_round n x rounds

-- The first loop of `fairRetrySelection`: the n-th message of a device goes to round n.
unfoldable pub place_rounds :
    ℕ → List Message → Map DeviceKey ℕ → List (List Message) → List (List Message)
place_rounds limit [] positions rounds = rounds
place_rounds limit (m ∷ ms) positions rounds =
    let position = count_of (device_key m) positions in
    place_rounds limit ms (insert (device_key m) (position + 1) positions)
      (if leb limit position then rounds else add_to_round position m rounds)

-- The inner loop over one round, which stops at the limit.
unfoldable pub fill_round {ℓ} : {A : Type ℓ} → ℕ → List A → List A → List A
fill_round limit selected [] = selected
fill_round limit selected (x ∷ xs) =
    let selected' = selected ++ (x ∷ []) in
    let rest = fill_round limit selected' xs in
    if nat_eq (length selected') limit then selected' else rest

-- The outer loop.
unfoldable pub fill_rounds {ℓ} : {A : Type ℓ} → ℕ → List A → List (List A) → List A
fill_rounds limit selected [] = selected
fill_rounds limit selected (round ∷ rounds) =
    let selected' = fill_round limit selected round in
    let rest = fill_rounds limit selected' rounds in
    if nat_eq (length selected') limit then selected' else rest

-- `retrySelectionFromMessages`
unfoldable pub device_counts : List Message → Map DeviceKey ℕ → ℕ → Map DeviceKey ℕ × ℕ
device_counts [] counts most = (counts, most)
device_counts (m ∷ ms) counts most =
    let n = count_of (device_key m) counts + 1 in
    device_counts ms (insert (device_key m) n counts) (if ltb most n then n else most)

unfoldable pub retry_selection_from_messages : List Message → SelectionMode → RetrySelection
retry_selection_from_messages ms mode =
    let (counts, most) = device_counts ms [] 0 in
    record { messages = ms; mode = mode; device_count = length counts; max_per_device = most }

unfoldable pub fair_retry_selection : List Message → ℕ → RetrySelection
fair_retry_selection candidates limit =
    let n = if nat_eq limit 0 then 100 else limit in
    retry_selection_from_messages (fill_rounds n [] (place_rounds n candidates [] [])) fair

abbrev pub normalize_limit : ℕ → ℕ
normalize_limit limit = if nat_eq limit 0 then 100 else limit

abbrev pub normalize_candidate_limit : ℕ → ℕ → ℕ
normalize_candidate_limit limit candidate_limit =
    if ltb candidate_limit (normalize_limit limit) then normalize_limit limit else candidate_limit
