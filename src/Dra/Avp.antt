-- ===== src/Dra/Avp.antt =====
-- dra/avp.go: walking over the top-level AVPs of a message.
use diam_gw.Prelude.{
  ℕ, zero, suc, ◌+◌, ◌-◌, ◌%◌, List, [], length, byte_at, slice, uint32, or_uint24, Bool, true,
  false, not, ◌&&◌, ◌||◌, bit_and, if◌then◌else◌, ◌==◌, ltb,
}
use diam_gw.Dra.Outcome.{
  Outcome, ok, err, stuck, ◌>>=◌, message_too_short, truncated_avp_header, bad_avp_length,
  truncated_vendor_avp, bad_avp_data_length,
}
use diam_gw.Dra.Header.{header_len}

-- Where an AVP sits in the message, as offsets from the message's start.
pub record AvpLoc : Type 0 where
  pub start : ℕ
  pub hdr_len : ℕ
  pub data_len : ℕ
  pub padded_to : ℕ

-- What the callback is given.
pub record Avp : Type 0 where
  pub code : ℕ
  pub vendor_id : ℕ
  pub loc : AvpLoc
  pub body : List ℕ

-- `padded`, the next multiple of four.
unfoldable pub pad_up : ℕ → ℕ
pad_up n = if n % 4 == 0 then n else n + (4 - n % 4)

-- The body of the loop up to the call of `fn`, for the AVP that starts at `pos`.
unfoldable pub read_avp : List ℕ → ℕ → Outcome Avp
read_avp msg pos =
    let code = uint32 (slice msg pos (pos + 4)) in
    let flags = byte_at msg (pos + 4) in
    let avp_len =
      or_uint24 (byte_at msg (pos + 5)) (byte_at msg (pos + 6)) (byte_at msg (pos + 7)) in
    let has_vendor = not (bit_and flags 0x80 == 0) in
    let hdr = if has_vendor then 12 else 8 in
    let vendor = if has_vendor then uint32 (slice msg (pos + 8) (pos + 12)) else 0 in
    if ltb (length msg) (pos + 8)
    then err truncated_avp_header
    else if ltb avp_len 8 || ltb (length msg - pos) avp_len
    then err bad_avp_length
    else if has_vendor && ltb (length msg) (pos + 12)
    then err truncated_vendor_avp
    else if ltb avp_len hdr
    then err bad_avp_data_length
    else ok (record {
      code = code;
      vendor_id = vendor;
      loc = record {
        start = pos;
        hdr_len = hdr;
        data_len = avp_len - hdr;
        padded_to = pad_up avp_len;
      };
      body = slice msg (pos + hdr) (pos + hdr + (avp_len - hdr));
    })

-- The callback closes over variables that it changes: it takes them, and returns them changed.
module _ {ℓ} {S : Type ℓ} (msg : List ℕ) (fn : S → Avp → Outcome S) where
  unfoldable pub avp_loop : ℕ → S → ℕ → Outcome S
  avp_loop zero s pos = if ltb pos (length msg) then stuck else ok s
  avp_loop (suc fuel) s pos =
      let body =
        read_avp msg pos >>= λ a. fn s a >>= λ s'. avp_loop fuel s' (pos + a.loc.padded_to) in
      if ltb pos (length msg) then body else ok s

  -- Every AVP takes eight bytes at least, so one round for each byte is enough.
  unfoldable pub iterate_avps : S → Outcome S
  iterate_avps s =
      if ltb (length msg) header_len
      then err message_too_short
      else avp_loop (length msg) s header_len

abbrev pub avp_origin_host : ℕ
avp_origin_host = 264

abbrev pub avp_origin_realm : ℕ
avp_origin_realm = 296

abbrev pub avp_destination_host : ℕ
avp_destination_host = 293

abbrev pub avp_destination_realm : ℕ
avp_destination_realm = 283

-- The four AVPs that routing looks at; a string is its bytes, and empty if it is not present.
pub record RoutingView : Type 0 where
  pub origin_host : List ℕ
  pub origin_realm : List ℕ
  pub destination_host : List ℕ
  pub destination_realm : List ℕ
  pub origin_host_loc : AvpLoc
  pub origin_realm_loc : AvpLoc
  pub has_origin_host : Bool
  pub has_origin_realm : Bool

abbrev pub no_loc : AvpLoc
no_loc = record { start = 0; hdr_len = 0; data_len = 0; padded_to = 0 }

abbrev pub no_routing : RoutingView
no_routing = record {
  origin_host = [];
  origin_realm = [];
  destination_host = [];
  destination_realm = [];
  origin_host_loc = no_loc;
  origin_realm_loc = no_loc;
  has_origin_host = false;
  has_origin_realm = false;
}

-- The switch of the callback.
unfoldable pub note_avp : RoutingView → Avp → RoutingView
note_avp rv a =
    if not (a.vendor_id == 0)
    then rv
    else if a.code == avp_origin_host
    then record rv { origin_host = a.body; origin_host_loc = a.loc; has_origin_host = true }
    else if a.code == avp_origin_realm
    then record rv { origin_realm = a.body; origin_realm_loc = a.loc; has_origin_realm = true }
    else if a.code == avp_destination_host
    then record rv { destination_host = a.body }
    else if a.code == avp_destination_realm
    then record rv { destination_realm = a.body }
    else rv

unfoldable pub extract_routing : List ℕ → Outcome RoutingView
unfolding iterate_avps
extract_routing msg = iterate_avps msg (λ rv a. ok (note_avp rv a)) no_routing
