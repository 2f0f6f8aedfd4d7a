-- ===== src/Session/Examples.antt =====
-- The theorems on the session manager at a manager with one session.
use z_courier.Base.{ℕ, ◌≡◌, refl, some, [], bytes, text_Eq, nat_Eq, lookup, arith}
use z_courier.Session.{
  BindInput, BindResult, Manager, ok, new_manager, bind, bind_checked, remove_conn, lookup_pair,
  get_by_client_device, IsValid,
}
use z_courier.Session.Remove.{remove_conn-IsValid}
use z_courier.Session.Bind.{bind-IsValid, get_by_client_device-bind}

abbrev on_connection : ℕ → BindInput
on_connection c = record {
  session_id = [];
  conn_id = c;
  client_id = bytes "c1";
  device_id = bytes "phone";
  token_id = bytes "t";
  gateway_node = bytes "gateway-1";
  now = 0;
}

new_manager-IsValid : IsValid new_manager
unfolding new_manager lookup lookup_pair
new_manager-IsValid = record {
  conn = λ c x found. ground arith;
  session = λ c x found. ground arith;
  pair = λ c x found. ground arith;
  of_session = λ s c found. ground arith;
  of_pair = λ c d n found. ground arith;
}

bind-IsValid_example : IsValid (bind (bytes "s1") 5 (on_connection 1) new_manager).0
unfolding new_manager lookup
bind-IsValid_example =
    bind-IsValid (bytes "s1") 5 (on_connection 1) new_manager new_manager-IsValid refl

abbrev one_session : Manager
one_session = (bind (bytes "s1") 5 (on_connection 1) new_manager).0

one_session-IsValid : IsValid one_session
unfolding new_manager lookup
one_session-IsValid =
    bind-IsValid (bytes "s1") 5 (on_connection 1) new_manager new_manager-IsValid refl

remove_conn-IsValid_example : IsValid (remove_conn 1 one_session).0
remove_conn-IsValid_example = remove_conn-IsValid one_session one_session-IsValid 1

abbrev rebound : BindResult
rebound = (bind_checked (bytes "s2") 6 (on_connection 2) one_session).1

binds_again : (bind (bytes "s2") 6 (on_connection 2) one_session).1 ≡ ok rebound
unfolding bind
binds_again = refl

get_by_client_device-bind_example :
    get_by_client_device
      (bytes "c1")
      (bytes "phone")
      (bind (bytes "s2") 6 (on_connection 2) one_session).0
    ≡ some (some rebound.session)
get_by_client_device-bind_example =
    get_by_client_device-bind (bytes "s2") 6 (on_connection 2) one_session rebound
      one_session-IsValid binds_again
