-- ===== src/Session/Bind.antt =====
-- `Bind` keeps the indexes in step, and gives each device one connection: the last that bound it.
use z_courier.Base.{
  ℕ, ◌≡◌, refl, inl, inr, true, false, ◌&&◌, ◌||◌, subst, none, some, Text, text_eq, text_eq_iff,
  text_Eq, nat_Eq, nat_eq, nat_eq_iff, lookup, insert, lookup-insert, Bool-cases, Option-cases,
  arith, if◌then◌else◌, is_empty,
}
use z_courier.Session.{
  Session, Manager, BindInput, BindResult, ok, lookup_pair, remove_conn, remove_replaced,
  with_session, new_session, bind_new, bind_checked, id_of, bind, is_same_device, refreshed,
  get_by_client_device, IsValid,
}
use z_courier.Session.Remove.{
  remove_conn-IsValid, remove_conn_absent, remove_conn-lookup, remove_conn-session,
  lookup_pair-insert_pair, lookup_pair-delete_pair,
}

module _ (m : Manager) (v : IsValid m) where
  -- A session whose connection, id and pair are all free.
  with_session-IsValid :
      (x : Session)
      → lookup x.conn_id m.by_conn_id ≡ none
      → lookup x.session_id m.conn_id_by_session_id ≡ none
      → lookup_pair x.client_id x.device_id m.conn_id_by_client_pair ≡ none
      → IsValid (with_session x m)
  with_session-IsValid x no_conn no_session no_pair = record {
    conn = λ c y h. ground (arith, lookup-insert x.conn_id c x m.by_conn_id, v.conn c y);
    session = λ c y h. ground (
      arith,
      lookup-insert x.conn_id c x m.by_conn_id,
      v.session c y,
      lookup-insert x.session_id y.session_id x.conn_id m.conn_id_by_session_id,
      text_eq_iff x.session_id y.session_id,
    );
    pair = λ c y h. ground (
      arith,
      lookup-insert x.conn_id c x m.by_conn_id,
      v.pair c y,
      lookup_pair-insert_pair x.client_id x.device_id y.client_id y.device_id x.conn_id
          m.conn_id_by_client_pair,
      text_eq_iff x.client_id y.client_id,
      text_eq_iff x.device_id y.device_id,
    );
    of_session = λ sid c h. elim (Bool-cases (text_eq x.session_id sid)) [
      | inl hit ↦ (
        x,
        ground (
          arith,
          lookup-insert x.conn_id c x m.by_conn_id,
          lookup-insert x.session_id sid x.conn_id m.conn_id_by_session_id,
        ),
        (text_eq_iff x.session_id sid).0 hit,
      )
      | inr miss ↦
          let (y, here, same) =
            v.of_session sid c
              (ground (arith, lookup-insert x.session_id sid x.conn_id m.conn_id_by_session_id)) in
          (y, ground (arith, lookup-insert x.conn_id c x m.by_conn_id), same)
    ];
    of_pair = λ client device c h.
        let law =
          lookup_pair-insert_pair x.client_id x.device_id client device x.conn_id
            m.conn_id_by_client_pair in
        elim (Bool-cases (text_eq x.client_id client && text_eq x.device_id device)) [
          | inl hit ↦ (
            x,
            ground (arith, lookup-insert x.conn_id c x m.by_conn_id, law),
            ground (arith, text_eq_iff x.client_id client),
            ground (arith, text_eq_iff x.device_id device),
          )
          | inr miss ↦
              let (y, here, same, same') = v.of_pair client device c (ground (arith, law)) in
              (y, ground (arith, lookup-insert x.conn_id c x m.by_conn_id), same, same')
        ];
  }

  -- A session that is renewed under its connection keeps its place in the indexes.
  renewed-IsValid :
      (conn_id : ℕ) (x y : Session)
      → lookup conn_id m.by_conn_id ≡ some x
      → y.conn_id ≡ x.conn_id
      → y.session_id ≡ x.session_id
      → y.client_id ≡ x.client_id
      → y.device_id ≡ x.device_id
      → IsValid (record m { by_conn_id = insert conn_id y m.by_conn_id })
  renewed-IsValid conn_id x y found e f g h = record {
    conn = λ c z k.
        ground (arith, lookup-insert conn_id c y m.by_conn_id, v.conn c z, v.conn conn_id x found);
    session = λ c z k.
        ground
          (arith, lookup-insert conn_id c y m.by_conn_id, v.session c z, v.session conn_id x found);
    pair = λ c z k.
        ground (arith, lookup-insert conn_id c y m.by_conn_id, v.pair c z, v.pair conn_id x found);
    of_session = λ sid c k.
        let (z, here, same) = v.of_session sid c k in
        elim (Bool-cases (nat_eq conn_id c)) [
          | inl hit ↦ (y, ground (arith, lookup-insert conn_id c y m.by_conn_id), ground arith)
          | inr miss ↦ (z, ground (arith, lookup-insert conn_id c y m.by_conn_id), same)
        ];
    of_pair = λ client device c k.
        let (z, here, same, same') = v.of_pair client device c k in
        elim (Bool-cases (nat_eq conn_id c)) [
          | inl hit ↦ (
            y,
            ground (arith, lookup-insert conn_id c y m.by_conn_id),
            ground arith,
            ground arith,
          )
          | inr miss ↦ (z, ground (arith, lookup-insert conn_id c y m.by_conn_id), same, same')
        ];
  }

  remove_conn_pair :
      (old : ℕ) (client device : Text)
      → lookup_pair client device m.conn_id_by_client_pair ≡ some old
      → lookup_pair client device (remove_conn old m).0.conn_id_by_client_pair ≡ none
  unfolding remove_conn
  remove_conn_pair old client device held =
      let (x, found, same, same') = v.of_pair client device old held in
      rw (found, remove_conn)
        (ground (
          arith,
          lookup_pair-delete_pair x.client_id x.device_id client device m.conn_id_by_client_pair,
          text_eq_iff x.client_id client,
          text_eq_iff x.device_id device,
        ))

  -- The device is free once whoever else holds it is removed.
  remove_replaced_frees :
      (input : BindInput)
      → lookup input.conn_id m.by_conn_id ≡ none
      → IsValid (remove_replaced input m).0
        × (lookup input.conn_id (remove_replaced input m).0.by_conn_id ≡ none)
        × (lookup_pair input.client_id input.device_id
              (remove_replaced input m).0.conn_id_by_client_pair
            ≡ none)
  unfolding remove_replaced
  remove_replaced_frees input gone =
      elim (Option-cases (lookup_pair input.client_id input.device_id m.conn_id_by_client_pair)) [
        | inl open' ↦ rw (open', remove_replaced) (v, gone, open')
        | inr (old, held) ↦
            let (x, found, _, _) = v.of_pair input.client_id input.device_id old held in
            let other : nat_eq old input.conn_id ≡ false =
              ground (arith, nat_eq_iff old input.conn_id, found, gone) in
            rw (held, remove_replaced)
              (rw other (
                remove_conn-IsValid m v old,
                remove_conn-lookup old input.conn_id m gone,
                remove_conn_pair old input.client_id input.device_id held,
              ))
      ]

remove_replaced-session :
    (input : BindInput) (sid : Text) (m : Manager)
    → lookup sid m.conn_id_by_session_id ≡ none
    → lookup sid (remove_replaced input m).0.conn_id_by_session_id ≡ none
unfolding remove_replaced
remove_replaced-session input sid m gone =
    elim (Option-cases (lookup_pair input.client_id input.device_id m.conn_id_by_client_pair)) [
      | inl open' ↦ rw (open', remove_replaced) gone
      | inr (old, held) ↦
          rw (held, remove_replaced)
            (elim (Bool-cases (nat_eq old input.conn_id)) [
              | inl own ↦ rw own gone
              | inr other ↦ rw other (remove_conn-session old sid m gone)
            ])
    ]

bind_new-IsValid :
    (session_id : Text) (now : ℕ) (input : BindInput) (m : Manager)
    → IsValid m
    → lookup session_id m.conn_id_by_session_id ≡ none
    → IsValid (bind_new session_id now input m).0
unfolding bind_new new_session
bind_new-IsValid session_id now input m v free =
    let cleared = (remove_conn input.conn_id m).0 in
    let (valid, gone, open') =
      remove_replaced_frees cleared (remove_conn-IsValid m v input.conn_id) input
        (remove_conn_absent input.conn_id m) in
    with_session-IsValid (remove_replaced input cleared).0 valid (new_session session_id now input)
      gone
      (remove_replaced-session input session_id cleared
        (remove_conn-session input.conn_id session_id m free))
      open'

bind_checked-IsValid :
    (session_id : Text) (now : ℕ) (input : BindInput) (m : Manager)
    → IsValid m
    → lookup session_id m.conn_id_by_session_id ≡ none
    → IsValid (bind_checked session_id now input m).0
unfolding bind_checked
bind_checked-IsValid session_id now input m v free =
    let made = bind_new-IsValid session_id now input m v free in
    elim (Option-cases (lookup input.conn_id m.by_conn_id)) [
      | inl unbound ↦ rw (unbound, bind_checked) made
      | inr (x, found) ↦
          rw (found, bind_checked)
            (elim (Bool-cases (is_same_device input x)) [
              | inr other ↦ rw other made
              | inl same ↦ rw same (
                  renewed-IsValid m v input.conn_id x (refreshed now input x) found refl refl refl
                    refl)
            ])
    ]

-- `Bind` keeps the three indexes in step, whatever its input, provided that the session id which
-- it would use for a new session is not in use already.
pub bind-IsValid :
    (fresh : Text) (clock : ℕ) (input : BindInput) (m : Manager)
    → IsValid m
    → lookup (id_of fresh input) m.conn_id_by_session_id ≡ none
    → IsValid (bind fresh clock input m).0
unfolding bind
bind-IsValid fresh clock input m v free =
    let now = if nat_eq input.now 0 then clock else input.now in
    let made = bind_checked-IsValid (id_of fresh input) now input m v free in
    elim (Bool-cases
      (nat_eq input.conn_id 0 || is_empty input.client_id || is_empty input.device_id)) [
        | inl bad ↦ subst IsValid (refused bad) v
        | inr fine ↦ subst IsValid (accepted fine) made
      ]
  where
    refused :
        (nat_eq input.conn_id 0 || is_empty input.client_id || is_empty input.device_id) ≡ true
        → m ≡ (bind fresh clock input m).0
    refused bad = ground arith

    accepted :
        (nat_eq input.conn_id 0 || is_empty input.client_id || is_empty input.device_id) ≡ false
        → (bind_checked
            (id_of fresh input)
            (if nat_eq input.now 0 then clock else input.now)
            input
            m).0
          ≡ (bind fresh clock input m).0
    accepted fine = ground arith

bind_new_found :
    (session_id : Text) (now : ℕ) (input : BindInput) (m : Manager)
    → get_by_client_device input.client_id input.device_id (bind_new session_id now input m).0
      ≡ some (some (bind_new session_id now input m).1.session)
unfolding get_by_client_device bind_new new_session
bind_new_found session_id now input m =
    let rest = (remove_replaced input (remove_conn input.conn_id m).0).0 in
    ground (
      arith,
      lookup_pair-insert_pair input.client_id input.device_id input.client_id input.device_id
          input.conn_id rest.conn_id_by_client_pair,
      text_eq_iff input.client_id input.client_id,
      text_eq_iff input.device_id input.device_id,
      lookup-insert input.conn_id input.conn_id (new_session session_id now input) rest.by_conn_id,
    )

refreshed_found :
    (now : ℕ) (input : BindInput) (x : Session) (m : Manager)
    → IsValid m
    → lookup input.conn_id m.by_conn_id ≡ some x
    → is_same_device input x ≡ true
    → get_by_client_device input.client_id input.device_id
        (record m { by_conn_id = insert input.conn_id (refreshed now input x) m.by_conn_id })
      ≡ some (some (refreshed now input x))
unfolding get_by_client_device
refreshed_found now input x m v found same =
    let at_pair : lookup_pair input.client_id input.device_id m.conn_id_by_client_pair
        ≡ some input.conn_id =
      ground (
        arith,
        v.pair input.conn_id x found,
        text_eq_iff x.client_id input.client_id,
        text_eq_iff x.device_id input.device_id,
      ) in
    rw (at_pair, get_by_client_device)
      (ground
        (arith, lookup-insert input.conn_id input.conn_id (refreshed now input x) m.by_conn_id))

bind_checked_found :
    (session_id : Text) (now : ℕ) (input : BindInput) (m : Manager)
    → IsValid m
    → get_by_client_device input.client_id input.device_id (bind_checked session_id now input m).0
      ≡ some (some (bind_checked session_id now input m).1.session)
unfolding bind_checked
bind_checked_found session_id now input m v =
    elim (Option-cases (lookup input.conn_id m.by_conn_id)) [
      | inl unbound ↦ rw (unbound, bind_checked) (bind_new_found session_id now input m)
      | inr (x, found) ↦
          rw (found, bind_checked)
            (elim (Bool-cases (is_same_device input x)) [
              | inr other ↦ rw other (bind_new_found session_id now input m)
              | inl same ↦ rw same (refreshed_found now input x m v found same)
            ])
    ]

-- When the indexes are in step and a bind succeeds, the client's device is found afterwards at
-- the session that the bind returned.
pub get_by_client_device-bind :
    (fresh : Text) (clock : ℕ) (input : BindInput) (m : Manager) (r : BindResult)
    → IsValid m
    → (bind fresh clock input m).1 ≡ ok r
    → get_by_client_device input.client_id input.device_id (bind fresh clock input m).0
      ≡ some (some r.session)
unfolding bind
get_by_client_device-bind fresh clock input m r v h = ground (
  arith,
  bind_checked_found (id_of fresh input) (if nat_eq input.now 0 then clock else input.now) input m
      v,
)
