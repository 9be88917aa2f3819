-- ===== src/Cloud/Tests/Eucas.antt =====
-- A fetch of a key over the packets of cas.py, and the theorem at it.
use ezviz_hp.Base.{◌<◌, true, none, some, [], ◌∷◌, ◌++◌, ◌≡◌, inl, refl, arith, length, replicate}
use ezviz_hp.Base.Bytes.{Bytes}
use ezviz_hp.Base.Text.{codes}
use ezviz_hp.Cas.{CasHeader, Hashes, make_cas_header, build_cas_packet}
use ezviz_hp.Cas.Header.{header_bytes}
use ezviz_hp.Cas.Sign.{Claim, split_dots, sign_of, extract_sign_from_jwt, encryption_request}
use ezviz_hp.Cas.Sign.Request.{request_header}
use ezviz_hp.Cloud.Api.{Api, bare_serial, is_ascii, fetch_lan_aes_key}
use ezviz_hp.Cloud.Api.Attempts.{Kept}
use ezviz_hp.Cloud.Eucas.{
  ServiceUrls, Token, Trial, new_cas, get_elem?, get_cas_host_port, ask_server, try_once, answers,
}
use ezviz_hp.Cloud.Eucas.Served.{IsServed, Got, second, fetch-answers}
use ezviz_hp.Cloud.Tests.{fresh, works, key}

abbrev toy : Hashes
toy = record {
  md5 = λ body. replicate 32 b'0';
  aes_encrypt = λ key plain. some plain;
  aes_decrypt = λ key cipher. some cipher;
}

abbrev urls : ServiceUrls
urls = record { sys_conf = some (replicate 15 [] ++ (codes "h" ∷ codes "p" ∷ [])) }

-- A token without addresses, and one with them.
abbrev old_token : Token
old_token = record { session_id = codes "o"; service_urls = none }

abbrev new_token : Token
new_token = record { session_id = codes "t"; service_urls = some urls }

abbrev header : CasHeader
header = record { session_id = 7; cmd = 0x2001; flags = 0; body_len = 0; extra = 0 }

abbrev packet_of : CasHeader → Bytes → Bytes
packet_of h body = header_bytes (record h { body_len = length body }) ++ (body ++ toy.md5 body)

abbrev once : Trial
once = record { token = some old_token; random = 5; network = λ host port. none }

abbrev again : Trial
again = record {
  token = some new_token;
  random = 6;
  network = λ host port. some (packet_of header key ∷ []);
}

claim : Bytes → Claim
claim json = Claim.text json

signed : extract_sign_from_jwt claim (codes "t") ≡ some (codes "t")
unfolding extract_sign_from_jwt sign_of split_dots
signed = refl

address :
    get_cas_host_port (record { token = new_token; service_urls = urls })
    ≡ some (codes "h", codes "p")
unfolding get_cas_host_port get_elem?
address = refl

request_fits :
    build_cas_packet toy
      (request_header 6)
      (encryption_request (codes "t") (codes "t") (codes "A1"))
    ≡ some (packet_of (request_header 6) (encryption_request (codes "t") (codes "t") (codes "A1")))
unfolding build_cas_packet make_cas_header header_bytes encryption_request
request_fits = refl

answer_fits : build_cas_packet toy header key ≡ some (packet_of header key)
unfolding build_cas_packet make_cas_header header_bytes
answer_fits = refl

first_fails : try_once toy claim some (codes "A1") once ≡ none
unfolding try_once ask_server new_cas
first_fails = refl

not_empty : 0 < length (packet_of header key)
unfolding header_bytes
not_empty = omega arith

bare : bare_serial (codes "A1-C2") ≡ codes "A1"
unfolding bare_serial
bare = refl

served : IsServed toy claim some (bare_serial (codes "A1-C2")) key again
served = rw bare (record {
  token = new_token;
  urls = urls;
  host = codes "h";
  port = codes "p";
  peer = packet_of header key ∷ [];
  sign = codes "t";
  request = packet_of (request_header 6) (encryption_request (codes "t") (codes "t") (codes "A1"));
  header = header;
  body = key;
  packet = packet_of header key;
  rest = [];
  has_token = refl;
  has_urls = refl;
  address = address;
  reached = refl;
  signed = signed;
  fits = request_fits;
  answered = answer_fits;
  pieces = (not_empty, tt);
  sent = refl;
  has_key = refl;
})

failed : try_once toy claim some (bare_serial (codes "A1-C2")) once ≡ none
failed = rw bare first_fails

abbrev cached : Api
cached = record fresh {
  client = true;
  token = some (codes "me");
  aes_cache = (codes "A1", (replicate 16 0, 90)) ∷ [];
}

key_ascii : is_ascii key ≡ true
unfolding is_ascii
key_ascii = refl

fetch-answers_example :
    Got toy claim some (bare_serial (codes "A1-C2")) key again
    × Kept (bare_serial (codes "A1-C2")) 100 key 1 cached (
        fetch_lan_aes_key
          (codes "A1-C2")
          true
          100
          (answers toy claim some (codes "A1-C2") works none (some (codes "me")) once again)
          cached)
fetch-answers_example =
    fetch-answers toy claim some (λ body. refl) (codes "A1-C2") key (codes "me") true 100 cached
      works none (some (codes "me")) once again again 1 refl refl (inl refl)
      (record { long = refl; ascii = key_ascii }) (second (codes "me") failed refl served)
