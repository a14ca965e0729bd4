-- ===== src/Client/Config.antt =====
-- client/config.go: the configuration of the connections to one agent. The fields that `Validate` does not
-- read are left out; a duration is in nanoseconds; `parse_ip` is `net.ParseIP`.
use diam_gw.Prelude.{
  ℕ, List, [], ◌∷◌, Option, none, some, Bool, true, false, not, ◌&&◌, ◌||◌, if◌then◌else◌,
}
use diam_gw.Prelude.Int.{ℤ, pos, negsuc, ltb_int}

pub record DraConfig : Type 0 where
  pub host : List ℕ
  pub port : ℤ
  pub local_addr : List ℕ
  pub local_port_min : ℤ
  pub local_port_max : ℤ
  pub origin_host : List ℕ
  pub origin_realm : List ℕ
  pub product_name : List ℕ
  pub connection_count : ℤ
  pub dwr_interval : ℤ
  pub dwr_timeout : ℤ
  pub max_dwr_failures : ℤ

-- The field and the reason of an ErrInvalidConfig.
pub data InvalidConfig : Type 0 where
  host_empty port_out_of_range origin_host_empty origin_realm_empty product_name_empty
        connection_count_not_positive dwr_interval_not_positive dwr_timeout_not_positive
        dwr_timeout_not_below_interval max_dwr_failures_not_positive local_addr_not_an_ip
        local_ports_not_set_together local_port_min_above_max local_port_max_out_of_range :
      InvalidConfig

-- `s == ""`
abbrev pub is_empty : List ℕ → Bool
is_empty [] = true
is_empty (x ∷ xs) = false

-- `n <= 0`
abbrev pub not_positive : ℤ → Bool
not_positive (pos n) = ltb_int (pos n) (pos 1)
not_positive (negsuc n) = true

-- `n != 0`
abbrev pub is_set : ℤ → Bool
is_set n = ltb_int n (pos 0) || ltb_int (pos 0) n

unfoldable pub validate_local_ports : ℤ → ℤ → Option InvalidConfig
validate_local_ports lo hi =
    if is_set lo || is_set hi
    then (if not_positive lo || not_positive hi
        then some local_ports_not_set_together
        else if ltb_int hi lo
        then some local_port_min_above_max
        else if ltb_int (pos 65535) hi
        then some local_port_max_out_of_range
        else none)
    else none

module _ (parse_ip : List ℕ → Option (List ℕ)) where
  abbrev pub is_ip : List ℕ → Bool
  is_ip s = elim (parse_ip s) [ none ↦ false | some _ ↦ true ]

  unfoldable pub validate : DraConfig → Option InvalidConfig
  unfolding validate_local_ports
  validate c =
      if is_empty c.host
      then some host_empty
      else if not_positive c.port || ltb_int (pos 65535) c.port
      then some port_out_of_range
      else if is_empty c.origin_host
      then some origin_host_empty
      else if is_empty c.origin_realm
      then some origin_realm_empty
      else if is_empty c.product_name
      then some product_name_empty
      else if not_positive c.connection_count
      then some connection_count_not_positive
      else if not_positive c.dwr_interval
      then some dwr_interval_not_positive
      else if not_positive c.dwr_timeout
      then some dwr_timeout_not_positive
      else if not (ltb_int c.dwr_timeout c.dwr_interval)
      then some dwr_timeout_not_below_interval
      else if not_positive c.max_dwr_failures
      then some max_dwr_failures_not_positive
      else if not (is_empty c.local_addr) && not (is_ip c.local_addr)
      then some local_addr_not_an_ip
      else validate_local_ports c.local_port_min c.local_port_max
