-- ===== src/Cpd7/Decoder/Keeps.antt =====
-- Invariants of the decoder of decoder.py: what absorbing plaintext keeps, `feed` keeps.
use ezviz_hp.Base.Keeps.{keep_if, keep_option}
use ezviz_hp.Base.{
  ℕ, zero, suc, ◌+◌, Bool, true, not, Option, none, some, [], ◌∷◌, ◌++◌, ◌≡◌, inl, inr, arith,
  Option-cases, ltb, ◌==◌, length, get_or, drop,
}
use ezviz_hp.Base.Bytes.{Bytes, be16_at}
use ezviz_hp.Cpd7.Ciphers.{Ciphers}
use ezviz_hp.Cpd7.Decoder.Framing.{drain-next, drain-rest}
use mathlib.Core.Path.{subst}
use ezviz_hp.Cpd7.Decoder.{
  StreamDecoder, absorb_plain, absorb_if_any, derive_keys, decrypt_data_chunk, take_data,
  handle_chunk, consume_one_chunk, drain, settle, feed,
}

-- `P` looks at neither the buffer nor the keys, and absorbing plaintext keeps it.
pub record IsGate {Priv : Type 0} (P : StreamDecoder Priv → Type 0) : Type 0 where
  pub absorb : (d : StreamDecoder Priv) (plain : Bytes) → P d → P (absorb_plain d plain)
  pub other :
      (d : StreamDecoder Priv) (buf : Bytes) (key : Option Bytes) (first logged : Bool)
      → P d
      → P (record d {
        buf = buf;
        chacha20_key = key;
        first_chunk_consumed = first;
        first_decrypt_logged = logged;
      })

module _ {Priv Pub : Type 0} (c : Ciphers Priv Pub) where
  -- Decrypting changes nothing but the flag of the log line.
  decrypt_data_chunk_flag :
      (d : StreamDecoder Priv) (chunk : Bytes)
      → (b : Bool) × ((decrypt_data_chunk c d chunk).1 ≡ record d { first_decrypt_logged = b })
  decrypt_data_chunk_flag d chunk = (
    (decrypt_data_chunk c d chunk).1.first_decrypt_logged,
    unfold decrypt_data_chunk in ground arith,
  )

  module _ {P : StreamDecoder Priv → Type 0} (g : IsGate P) where
    keep_absorb_if_any : (d : StreamDecoder Priv) (plain : Bytes) → P d → P (absorb_if_any d plain)
    unfolding absorb_if_any
    keep_absorb_if_any d [] h = h
    keep_absorb_if_any d (x ∷ plain) h = g.absorb d (x ∷ plain) h

    keep_take_data : (d : StreamDecoder Priv) (payload : Bytes) → P d → P (take_data c d payload)
    unfolding take_data
    keep_take_data d payload h =
        let (b, e) = decrypt_data_chunk_flag d payload in
        rw e (
          keep_absorb_if_any (record d { first_decrypt_logged = b }) _
            (g.other d d.buf d.chacha20_key d.first_chunk_consumed b h))

    keep_handle_chunk :
        (d : StreamDecoder Priv) (chan : ℕ) (payload : Bytes)
        → P d
        → P (handle_chunk c d chan payload)
    unfolding handle_chunk
    keep_handle_chunk d chan payload h =
        keep_if P (not d.first_chunk_consumed) _ _
          (keep_option P (derive_keys c d.priv payload) _ _
            (g.other d d.buf d.chacha20_key true d.first_decrypt_logged h)
            (λ key. g.other d d.buf (some key) true d.first_decrypt_logged h))
          (keep_if P (not (chan == 0x01)) _ _ h
            (keep_option P d.chacha20_key _ _ h (λ _. keep_take_data d payload h)))

    IfSome : Option (StreamDecoder Priv) → Type 0
    IfSome none = Unit
    IfSome (some d) = P d

    keep_consume : (d : StreamDecoder Priv) → P d → IfSome (consume_one_chunk c d)
    unfolding consume_one_chunk IfSome
    keep_consume d h =
        let total = 4 + be16_at 2 d.buf in
        let after = λ (b : Bytes).
          g.other d b d.chacha20_key d.first_chunk_consumed d.first_decrypt_logged h in
        keep_if IfSome (ltb (length d.buf) 4) _ _ tt (
          keep_if IfSome (not (get_or d.buf 0 0 == 0x24)) _ _ (after (drop 1 d.buf)) (
            keep_if IfSome (ltb (length d.buf) total) _ _ tt (
              keep_handle_chunk (record d { buf = drop total d.buf }) _ _
                (after (drop total d.buf)))))

    keep_some : (d d' : StreamDecoder Priv) → consume_one_chunk c d ≡ some d' → P d → P d'
    unfolding IfSome
    keep_some d d' e h = subst IfSome e (keep_consume d h)

    keep_drain : (f : ℕ) (d : StreamDecoder Priv) → P d → P (drain c f d)
    keep_drain zero d h = unfold drain in h
    keep_drain (suc f) d h = elim (Option-cases (consume_one_chunk c d)) [
      | inl e ↦ rw (drain-rest c (suc f) d e) h
      | inr (d', e) ↦ rw (drain-next c f d d' e) (keep_drain f d' (keep_some d d' e h))
    ]

    -- What absorbing keeps, `feed` keeps.
    pub keep_feed : (d : StreamDecoder Priv) (x : Bytes) → P d → P (feed c d x)
    unfolding feed settle
    keep_feed d [] h = h
    keep_feed d (a ∷ x) h =
        keep_drain _ (record d { buf = d.buf ++ a ∷ x })
          (g.other d (d.buf ++ a ∷ x) d.chacha20_key d.first_chunk_consumed d.first_decrypt_logged
            h)
