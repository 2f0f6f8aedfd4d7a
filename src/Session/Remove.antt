-- ===== src/Session/Remove.antt =====
-- The removal of a connection keeps the indexes of the sessions in step.
use z_courier.Base.{
  ℕ, ◌≡◌, refl, inl, inr, false, ◌&&◌, none, some, [], ◌∷◌, Text, text_eq, text_eq_iff, text_Eq,
  nat_Eq, nat_eq, nat_eq_iff, Map, lookup, insert, delete, lookup-insert, lookup-delete, length,
  Bool-cases, Option-cases, arith, if◌then◌else◌,
}
use z_courier.Session.{
  Session, Manager, delete_pair, insert_pair, lookup_pair, remove_conn, without, IsValid,
}

lookup_pair-insert :
    (client c d : Text) (devices : Map Text ℕ) (pairs : Map Text (Map Text ℕ))
    → lookup_pair c d (insert client devices pairs)
      ≡ (if text_eq client c then lookup d devices else lookup_pair c d pairs)
unfolding lookup_pair
lookup_pair-insert client c d devices pairs = ground (arith, lookup-insert client c devices pairs)

lookup_pair-delete :
    (client c d : Text) (pairs : Map Text (Map Text ℕ))
    → lookup_pair c d (delete client pairs)
      ≡ (if text_eq client c then none else lookup_pair c d pairs)
unfolding lookup_pair
lookup_pair-delete client c d pairs = ground (arith, lookup-delete client c pairs)

-- What the pairs say of one client, by its devices.
lookup_pair_devices :
    (client d : Text) (pairs : Map Text (Map Text ℕ)) (devices : Map Text ℕ)
    → lookup client pairs ≡ some devices
    → lookup_pair client d pairs ≡ lookup d devices
unfolding lookup_pair
lookup_pair_devices client d pairs devices h = rw (h, lookup_pair)

lookup_pair_no_client :
    (client d : Text) (pairs : Map Text (Map Text ℕ))
    → lookup client pairs ≡ none
    → lookup_pair client d pairs ≡ none
unfolding lookup_pair
lookup_pair_no_client client d pairs h = rw (h, lookup_pair)

lookup-nil : (d : Text) (devices : Map Text ℕ) → length devices ≡ 0 → lookup d devices ≡ none
unfolding lookup
lookup-nil d [] h = refl
lookup-nil d (p ∷ devices) h = absurd (omega arith)

pub lookup_pair-delete_pair :
    (client device c d : Text) (pairs : Map Text (Map Text ℕ))
    → lookup_pair c d (delete_pair client device pairs)
      ≡ (if text_eq client c && text_eq device d then none else lookup_pair c d pairs)
unfolding delete_pair
lookup_pair-delete_pair client device c d pairs = elim (Option-cases (lookup client pairs)) [
  | inl missing ↦
      rw (missing, delete_pair)
        (ground (arith, text_eq_iff client c, lookup_pair_no_client client d pairs missing))
  | inr (devices, found) ↦
      rw (found, delete_pair)
        (elim (Bool-cases (nat_eq (length (delete device devices)) 0)) [
          | inl last ↦ rw last (
              ground (
                arith,
                text_eq_iff client c,
                lookup_pair-delete client c d pairs,
                lookup_pair_devices client d pairs devices found,
                lookup-delete device d devices,
                lookup-nil d (delete device devices) ((nat_eq_iff _ 0).0 last),
              ))
          | inr more ↦ rw more (
              ground (
                arith,
                text_eq_iff client c,
                lookup_pair-insert client c d (delete device devices) pairs,
                lookup_pair_devices client d pairs devices found,
                lookup-delete device d devices,
              ))
        ])
]

pub lookup_pair-insert_pair :
    (client device c d : Text) (conn : ℕ) (pairs : Map Text (Map Text ℕ))
    → lookup_pair c d (insert_pair client device conn pairs)
      ≡ (if text_eq client c && text_eq device d then some conn else lookup_pair c d pairs)
unfolding insert_pair
lookup_pair-insert_pair client device c d conn pairs = elim (Option-cases (lookup client pairs)) [
  | inl missing ↦
      rw (missing, insert_pair)
        (ground (
          arith,
          text_eq_iff client c,
          lookup_pair_no_client client d pairs missing,
          lookup_pair-insert client c d (insert device conn []) pairs,
          lookup-insert device d conn [],
          lookup-nil d [] refl,
        ))
  | inr (devices, found) ↦
      rw (found, insert_pair)
        (ground (
          arith,
          text_eq_iff client c,
          lookup_pair_devices client d pairs devices found,
          lookup_pair-insert client c d (insert device conn devices) pairs,
          lookup-insert device d conn devices,
        ))
]

module _ (m : Manager) (v : IsValid m) where
  without-IsValid :
      (conn_id : ℕ) (x : Session)
      → lookup conn_id m.by_conn_id ≡ some x
      → IsValid (without conn_id x m)
  without-IsValid conn_id x found = record {
    conn = λ c y h. ground (arith, lookup-delete conn_id c m.by_conn_id, v.conn c y);
    session = λ c y h. ground (
      arith,
      lookup-delete conn_id c m.by_conn_id,
      v.session c y,
      v.session conn_id x found,
      lookup-delete x.session_id y.session_id m.conn_id_by_session_id,
      text_eq_iff x.session_id y.session_id,
    );
    pair = λ c y h. ground (
      arith,
      lookup-delete conn_id c m.by_conn_id,
      v.pair c y,
      v.pair conn_id x found,
      lookup_pair-delete_pair x.client_id x.device_id y.client_id y.device_id
          m.conn_id_by_client_pair,
      text_eq_iff x.client_id y.client_id,
      text_eq_iff x.device_id y.device_id,
    );
    of_session = λ sid c h.
        let kept : (lookup sid m.conn_id_by_session_id ≡ some c)
            × (text_eq x.session_id sid ≡ false) =
          (
            ground (arith, lookup-delete x.session_id sid m.conn_id_by_session_id),
            ground (arith, lookup-delete x.session_id sid m.conn_id_by_session_id),
          ) in
        let (y, here, same) = v.of_session sid c kept.0 in
        (
          y,
          ground (arith, lookup-delete conn_id c m.by_conn_id, text_eq_iff x.session_id sid),
          same,
        );
    of_pair = λ client device c h.
        let law =
          lookup_pair-delete_pair x.client_id x.device_id client device m.conn_id_by_client_pair in
        let kept : (lookup_pair client device m.conn_id_by_client_pair ≡ some c)
            × ((text_eq x.client_id client && text_eq x.device_id device) ≡ false) =
          (ground (arith, law), ground (arith, law)) in
        let (y, here, same, same') = v.of_pair client device c kept.0 in
        (
          y,
          ground (
            arith,
            lookup-delete conn_id c m.by_conn_id,
            text_eq_iff x.client_id client,
            text_eq_iff x.device_id device,
          ),
          same,
          same',
        );
  }

  -- When the three indexes are in step, they are still after the removal of a connection, bound
  -- or not.
  pub remove_conn-IsValid : (conn_id : ℕ) → IsValid (remove_conn conn_id m).0
  unfolding remove_conn
  remove_conn-IsValid conn_id = elim (Option-cases (lookup conn_id m.by_conn_id)) [
    | inl missing ↦ rw (missing, remove_conn) v
    | inr (x, found) ↦ rw (found, remove_conn) (without-IsValid conn_id x found)
  ]

pub remove_conn_absent :
    (conn_id : ℕ) (m : Manager) → lookup conn_id (remove_conn conn_id m).0.by_conn_id ≡ none
unfolding remove_conn
remove_conn_absent conn_id m = elim (Option-cases (lookup conn_id m.by_conn_id)) [
  | inl missing ↦ rw (missing, remove_conn) missing
  | inr (x, found) ↦
      rw (found, remove_conn) (ground (arith, lookup-delete conn_id conn_id m.by_conn_id))
]

-- A removal makes no session appear.
pub remove_conn-lookup :
    (conn_id c : ℕ) (m : Manager)
    → lookup c m.by_conn_id ≡ none
    → lookup c (remove_conn conn_id m).0.by_conn_id ≡ none
unfolding remove_conn
remove_conn-lookup conn_id c m gone = elim (Option-cases (lookup conn_id m.by_conn_id)) [
  | inl missing ↦ rw (missing, remove_conn) gone
  | inr (x, found) ↦ rw (found, remove_conn) (ground (arith, lookup-delete conn_id c m.by_conn_id))
]

-- Nor does it make a session id appear.
pub remove_conn-session :
    (conn_id : ℕ) (sid : Text) (m : Manager)
    → lookup sid m.conn_id_by_session_id ≡ none
    → lookup sid (remove_conn conn_id m).0.conn_id_by_session_id ≡ none
unfolding remove_conn
remove_conn-session conn_id sid m gone = elim (Option-cases (lookup conn_id m.by_conn_id)) [
  | inl missing ↦ rw (missing, remove_conn) gone
  | inr (x, found) ↦
      rw (found, remove_conn)
        (ground (arith, lookup-delete x.session_id sid m.conn_id_by_session_id))
]
