-- ===== src/Dra/Rewrite.antt =====
-- dra/avp.go: building an AVP, and replacing the origin of a message by the agent's own.
use diam_gw.Prelude.{
  ℕ, ◌+◌, ◌-◌, List, ◌∷◌, ◌++◌, length, take, drop, replicate, slice, byte_at, put_uint24,
  put_uint32, Bool, true, false, ◌&&◌, if◌then◌else◌, ◌==◌, ltb,
}
use diam_gw.Dra.Outcome.{Outcome, ok, err, panic, ◌>>=◌, message_too_short}
use diam_gw.Dra.Header.{header_len}
use diam_gw.Dra.Avp.{Avp, pad_up, iterate_avps, avp_origin_host, avp_origin_realm}

-- A buffer of zeros of the padded length, of which the front is filled.
unfoldable pub encode_string_avp : ℕ → List ℕ → Bool → List ℕ
unfolding put_uint32 put_uint24
encode_string_avp code value mandatory =
    let total = 8 + length value in
    put_uint32 code
    ++ (((if mandatory then 0x40 else 0) ∷ put_uint24 total)
        ++ (value ++ replicate (pad_up total - total) 0))

-- The variables of the rewriting closure.
pub record Rewriting : Type 0 where
  pub out : List ℕ
  pub wrote_host : Bool
  pub wrote_realm : Bool

-- The callback. The slice that copies an AVP with its padding panics where it passes the end of the
-- message: the capacity of a message is its length.
unfoldable pub rewrite_avp : List ℕ → List ℕ → List ℕ → Rewriting → Avp → Outcome Rewriting
rewrite_avp msg new_host new_realm s a =
    if a.vendor_id == 0 && a.code == avp_origin_host
    then ok (record s {
      out = s.out ++ encode_string_avp avp_origin_host new_host true;
      wrote_host = true;
    })
    else if a.vendor_id == 0 && a.code == avp_origin_realm
    then ok (record s {
      out = s.out ++ encode_string_avp avp_origin_realm new_realm true;
      wrote_realm = true;
    })
    else if ltb (length msg) (a.loc.start + a.loc.padded_to)
    then panic
    else ok (record s { out = s.out ++ slice msg a.loc.start (a.loc.start + a.loc.padded_to) })

-- What is appended behind the AVPs where the message carried no origin.
unfoldable pub append_missing : List ℕ → List ℕ → Rewriting → List ℕ
append_missing new_host new_realm s =
    let with_host =
      if s.wrote_host then s.out else s.out ++ encode_string_avp avp_origin_host new_host true in
    if s.wrote_realm
    then with_host
    else with_host ++ encode_string_avp avp_origin_realm new_realm true

-- The length is written over bytes 1 to 3.
unfoldable pub fix_length : List ℕ → List ℕ
unfolding put_uint24
fix_length out = byte_at out 0 ∷ (put_uint24 (length out) ++ drop 4 out)

unfoldable pub rewrite_origin_host_realm : List ℕ → List ℕ → List ℕ → Outcome (List ℕ)
rewrite_origin_host_realm msg new_host new_realm =
    if ltb (length msg) header_len
    then err message_too_short
    else iterate_avps msg (rewrite_avp msg new_host new_realm)
        (record { out = take header_len msg; wrote_host = false; wrote_realm = false })
      >>= λ s. ok (fix_length (append_missing new_host new_realm s))
