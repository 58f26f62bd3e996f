-- ===== src/Throttling/Votes.antt =====
-- `cdev_all_request_map_`: for each cooling device the multiset of the sensors' requests, largest first.
mod Multiset
unfoldable pub use Multiset.*
use hardware_mediatek.Base.{
  Bool, not, Option, none, some, List, ◌>>=◌, String, ℤ, eqb_ℤ, Map, lookup, insert,
}

-- `ThermalThrottling::getCdevMaxRequest`; `none` is `false`, and also an empty multiset, which
-- has no first element.
unfoldable pub get_cdev_max_request : String → Map (List ℤ) → Option ℤ
get_cdev_max_request cdev_name requests = do
  request_set ← lookup cdev_name requests
  begin request_set

-- `ThermalThrottling::updateCdevMaxRequestAndNotifyIfChange`
unfoldable pub update_cdev_max_request_and_notify_if_change :
    String → ℤ → ℤ → Map (List ℤ) → Option (Bool × Map (List ℤ))
update_cdev_max_request_and_notify_if_change cdev_name cur_request new_request requests = do
  request_set ← lookup cdev_name requests
  cur_max_request ← begin request_set
  rest ← erase cur_request request_set
  let request_set' = insert_vote new_request rest
  new_max_request ← begin request_set'
  some (not (eqb_ℤ new_max_request cur_max_request), insert cdev_name request_set' requests)
