-- ===== src/Cas/Sign.antt =====
-- custom_components/ezviz_hp7/pylocalapi/cas.py: the sign of a request, which stands in the token, and
-- the request for the key of a device. What `json.loads` makes of a payload is an argument.
pub mod Base64
pub mod Token
pub mod Request
use ezviz_hp.Base.{
  ℕ, zero, suc, ◌+◌, ◌*◌, ◌/◌, ◌%◌, ◌-◌, Bool, true, false, not, ◌&&◌, ◌||◌, Option, none, some,
  List, [], ◌∷◌, ◌++◌, map, ltb, leb, ◌==◌, if◌then◌else◌, length, replicate,
}
use ezviz_hp.Base.Bytes.{Bytes, equal}
use ezviz_hp.Base.Text.{codes}
use ezviz_hp.Base.Options.{◌>>=◌}
use ezviz_hp.Socket.{Incoming}
use ezviz_hp.Cas.{CasHeader, Hashes, build_cas_packet, recv_cas_response}

-- the value of a character of base64, in its two alphabets, which `urlsafe_b64decode` both takes
unfoldable pub value_of : ℕ → Option ℕ
value_of c =
    if leb b'A' c && leb c b'Z'
    then some (c - 65)
    else if leb b'a' c && leb c b'z'
    then some (c - 71)
    else if leb b'0' c && leb c b'9'
    then some (c + 4)
    else if c == b'-' || c == b'+'
    then some 62
    else if c == b'_' || c == b'/'
    then some 63
    else none

-- the place in a group of four characters, with the bits left over
pub data Quad : Type 0 where
  first : Quad
  second : ℕ → Quad
  third : ℕ → Quad
  fourth : ℕ → Quad

-- the places that are left in the group at a padding character, if one may stand there
missing : Quad → Option ℕ
missing first = none
missing (second left) = none
missing (third left) = some 2
missing (fourth left) = some 1

with_value : Quad → ℕ → Option ℕ × Quad
with_value first v = (none, second v)
with_value (second left) v = (some (left * 4 + v / 16), third (v % 16))
with_value (third left) v = (some (left * 16 + v / 4), fourth (v % 4))
with_value (fourth left) v = (some (left * 64 + v), first)

emit : Option ℕ → Option Bytes → Option Bytes
emit none rest = rest
emit (some b) none = none
emit (some b) (some bs) = some (b ∷ bs)

is_first : Quad → Bool
is_first first = true
is_first _ = false

-- whether the paddings so far and one more fill the group
is_full : Option ℕ → ℕ → Bool
is_full none pads = false
is_full (some n) pads = leb n (suc pads)

count_pad : Option ℕ → ℕ → ℕ
count_pad none pads = pads
count_pad (some n) pads = suc pads

-- the loop of the decoder: a padding ends it once the group is full, what is no character of base64 is
-- skipped, and at the end no group may be open
unfoldable pub decode_from : Quad → ℕ → Bytes → Option Bytes
unfolding is_first is_full count_pad missing with_value emit
decode_from q pads [] = if is_first q then some [] else none
decode_from q pads (c ∷ cs) = elim (c == b'=') [
  | true ↦ elim (is_full (missing q) pads) [
    | true ↦ some []
    | false ↦ decode_from q (count_pad (missing q) pads) cs
  ]
  | false ↦ elim (value_of c) [
    | none ↦ decode_from q pads cs
    | some v ↦ let (out, q') = with_value q v in emit out (decode_from q' 0 cs)
  ]
]

unfoldable pub are_ascii : Bytes → Bool
are_ascii [] = true
are_ascii (c ∷ cs) = ltb c 128 && are_ascii cs

-- `base64.urlsafe_b64decode` of a text; `none` stands for the `ValueError` of a character beyond ASCII or
-- of a wrong padding
unfoldable pub urlsafe_b64decode : Bytes → Option Bytes
urlsafe_b64decode cs = if are_ascii cs then decode_from first 0 cs else none

-- `"=" * (-len(payload) % 4)`
unfoldable pub pad : Bytes → Bytes
pad payload = payload ++ replicate ((4 - length payload % 4) % 4) b'='

-- `raw.split(".")`
unfoldable pub split_dots : Bytes → List Bytes
split_dots [] = [] ∷ []
split_dots (c ∷ cs) = elim (c == b'.') [
  | true ↦ [] ∷ split_dots cs
  | false ↦ elim (split_dots cs) [ [] ↦ (c ∷ []) ∷ [] | part ∷ parts ↦ (c ∷ part) ∷ parts ]
]

-- What the claim `s` of a payload is: an exception that is caught; one that is not, where the payload
-- is no dictionary; no text; or a text.
pub data Claim : Type 0 where
  unparsable : Claim
  no_dict : Claim
  no_text : Claim
  text : Bytes → Claim

-- the sign of a claim, or the raw token; `none` stands for an exception
sign_or : Bytes → Claim → Option Bytes
sign_or raw unparsable = some raw
sign_or raw no_dict = none
sign_or raw no_text = some raw
sign_or raw (text []) = some raw
sign_or raw (text (c ∷ cs)) = some (c ∷ cs)

unfoldable pub sign_of : (Bytes → Claim) → Bytes → List Bytes → Option Bytes
unfolding sign_or
sign_of claim raw (header ∷ payload ∷ parts) = elim (urlsafe_b64decode (pad payload)) [
  | none ↦ some raw
  | some json ↦ sign_or raw (claim json)
]
sign_of claim raw _ = some raw

-- `_extract_sign_from_jwt`, with the `session_id` of the token
unfoldable pub extract_sign_from_jwt : (Bytes → Claim) → Bytes → Option Bytes
unfolding sign_of
extract_sign_from_jwt claim raw = sign_of claim raw (split_dots raw)

-- the body of the request of `cas_get_encryption`
unfoldable pub encryption_request : Bytes → Bytes → Bytes → Bytes
encryption_request session_id sign devserial =
    codes "<?xml version=\"1.0\" encoding=\"utf-8\"?>"
    ++ (codes "<Request>"
        ++ (codes "<ClientID>"
            ++ (session_id
                ++ (codes "</ClientID>"
                    ++ (codes "<Sign>"
                        ++ (sign
                            ++ (codes "</Sign>"
                                ++ (codes "<DevSerial>"
                                    ++ (devserial
                                        ++ (codes "</DevSerial>"
                                            ++ (codes "<ClientType>3</ClientType>"
                                                ++ codes "</Request>")))))))))))

-- What `_send_and_recv` does with its connection: what it sends, what it returns, if anything, and
-- whether the connection is closed.
pub record Exchange : Type 0 where
  pub sent : Bytes
  pub answer : Option (CasHeader × Bytes)
  pub closed : Bool

answer_of : Option (CasHeader × Bytes × Incoming × Bool) → Option (CasHeader × Bytes)
answer_of none = none
answer_of (some (hdr, body, left, mismatch)) = some (hdr, body)

-- `_send_and_recv`, once connected, with the peer's bytes
unfoldable pub send_and_recv : Hashes → CasHeader → Bytes → Incoming → Exchange
unfolding answer_of
send_and_recv k header body peer = elim (build_cas_packet k header body) [
  | none ↦ record { sent = []; answer = none; closed = true }
  | some packet ↦ record {
    sent = packet;
    answer = answer_of (recv_cas_response k peer);
    closed = true;
  }
]

-- `cas_get_encryption`, up to the XML of the answer; `none` stands for an exception before the request
unfoldable pub cas_get_encryption :
    Hashes → (Bytes → Claim) → ℕ → Bytes → Bytes → Incoming → Option Exchange
cas_get_encryption k claim random session_id devserial peer = do
  sign ← extract_sign_from_jwt claim session_id
  some (
      send_and_recv k
        (record { session_id = random; cmd = 0x2001; flags = 0; body_len = 0; extra = 0 })
        (encryption_request session_id sign devserial) peer)
