-- ===== src/Cas/Permanent.antt =====
-- `query_permanent_password` of custom_components/ezviz_hp7/pylocalapi/cas.py: a packet inside a packet,
-- and the searches in the answer. The random session id is an argument.
pub mod Nested
use ezviz_hp.Base.{
  ℕ, zero, suc, ◌+◌, ◌*◌, Bool, true, false, not, ◌&&◌, ◌||◌, Option, none, some, List, [], ◌∷◌,
  ◌++◌, ltb, leb, ◌==◌, if◌then◌else◌, length, take, drop, slice, ◌≡◌, refl,
}
use ezviz_hp.Base.Options.{◌>>=◌}
use ezviz_hp.Base.Bytes.{Bytes, equal}
use ezviz_hp.Base.Search.{is_prefix}
use ezviz_hp.Base.Text.{codes, decimal}
use ezviz_hp.Cas.{
  CasHeader, Hashes, cas_header_size, cas_tail_size, make_cas_header, parse_cas_header,
}

is_digit : ℕ → Bool
is_digit c = leb b'0' c && leb c b'9'

-- the longest run of digits in front, and what follows
digits : Bytes → Bytes × Bytes
unfolding is_digit
digits [] = ([], [])
digits (c ∷ cs) = let (ds, rest) = digits cs in if is_digit c then (c ∷ ds, rest) else ([], c ∷ cs)

-- the longest run without a quotation mark in front, and what follows
unquoted : Bytes → Bytes × Bytes
unquoted [] = ([], [])
unquoted (c ∷ cs) =
    let (qs, rest) = unquoted cs in if c == b'"' then ([], c ∷ cs) else (c ∷ qs, rest)

-- a group that is not empty, before what must follow it
closed_by : Bytes → Bytes × Bytes → Option Bytes
closed_by after ([], rest) = none
closed_by after (c ∷ cs, rest) = if is_prefix after rest then some (c ∷ cs) else none

result_here : Bytes → Option Bytes
unfolding digits closed_by
result_here text =
    if is_prefix (codes "<Result>") text
    then closed_by (codes "</Result>") (digits (drop 8 text))
    else none

key_here : Bytes → Option Bytes
unfolding unquoted closed_by
key_here text =
    if is_prefix (codes "Key=\"") text
    then closed_by (codes "\"") (unquoted (drop 5 text))
    else none

search : (Bytes → Option Bytes) → Bytes → Option Bytes
search here [] = none
search here (c ∷ cs) =
    let later = search here cs in elim (here (c ∷ cs)) [ some g ↦ some g | none ↦ later ]

-- the group of `<Result>(\d+)</Result>`
unfoldable pub find_result : Bytes → Option Bytes
unfolding search result_here
find_result = search result_here

-- the group of `Key="([^"]+)"`
unfoldable pub find_key : Bytes → Option Bytes
unfolding search key_here
find_key = search key_here

abbrev pub inner_xml : Bytes → Bytes
inner_xml operation_code =
    codes "<?xml version=\"1.0\" encoding=\"utf-8\"?><Request><OperationCode>"
    ++ (operation_code ++ codes "</OperationCode></Request>")

abbrev pub outer_xml : Bytes → Bytes → ℕ → Bytes
outer_xml session_id serial n =
    codes "<?xml version=\"1.0\" encoding=\"utf-8\"?><Request><Verify ClientSession=\""
    ++ (session_id
        ++ (codes "\" ToDevice=\""
            ++ (serial
                ++ (codes "\" ClientType=\"3\"/><Message Length=\""
                    ++ (decimal n ++ codes "\"/></Request>")))))

module _ (k : Hashes) where
  -- the inner packet, with the session id of its header
  unfoldable pub inner_packet : ℕ → Bytes → Bytes → Option Bytes
  inner_packet inner_session aes_key operation_code = do
    inner_ciphertext ← k.aes_encrypt aes_key (inner_xml operation_code)
    inner_hdr ← make_cas_header (record {
      session_id = inner_session;
      cmd = 0x2845;
      flags = 0;
      body_len = length inner_ciphertext;
      extra = 0;
    })
    some (inner_hdr ++ (inner_ciphertext ++ k.md5 inner_ciphertext))

  -- the outer body, and the length of its XML, which goes into the outer header
  unfoldable pub outer_body : ℕ → Bytes → Bytes → Bytes → Bytes → Option (Bytes × ℕ)
  outer_body inner_session session_id serial aes_key operation_code = do
    packet ← inner_packet inner_session aes_key operation_code
    let xml = outer_xml session_id serial (length packet)
    some (xml ++ packet, length xml)

  -- the text of the inner packet: encrypted where the flags say so
  inner_plaintext : Bytes → CasHeader → Bytes → Option Bytes
  inner_plaintext aes_key h inner_ct =
      if h.flags == 0xffffffff then k.aes_decrypt aes_key inner_ct else some inner_ct

  -- The answer is unwrapped: the XML in front goes, and the inner packet is read. A tail that does not
  -- match is only logged.
  unfoldable pub unwrap : Bytes → ℕ → Bytes → Option Bytes
  unfolding inner_plaintext
  unwrap aes_key outer_rsp_xml_len rsp_body =
      let inner_rsp = drop outer_rsp_xml_len rsp_body in
      if ltb (length inner_rsp) (cas_header_size + cas_tail_size) then none else do
        h ← parse_cas_header (take cas_header_size inner_rsp)
        inner_plaintext aes_key h (slice cas_header_size (cas_header_size + h.body_len) inner_rsp)

  -- the password in the text
  unfoldable pub password_in : Bytes → Option Bytes
  password_in text = do
    result ← find_result text
    if equal result (codes "0") then find_key text else none

  -- `query_permanent_password`, with the answer of `_send_and_recv`
  unfoldable pub query_permanent_password : Bytes → Option (CasHeader × Bytes) → Option Bytes
  query_permanent_password aes_key answer = do
    (hdr, rsp_body) ← (if length aes_key == 16 then answer else none)
    inner_text ← unwrap aes_key hdr.extra rsp_body
    password_in inner_text
