-- ===== src/Relay/Pump.antt =====
-- `_pump_upstream` of custom_components/ezviz_hp7/tcp_relay.py with the decoder of cpd7/decoder.py: what
-- is read from the LAN is decrypted, kept and counted.
use ezviz_hp.Base.{
  ◌+◌, ◌≤◌, ◌<◌, false, List, [], ◌∷◌, ◌++◌, ltb, length, ◌≡◌, ◌⊎◌, inl, inr, refl, sym, ap, ◌∙◌,
  arith, append_assoc, append-nil, length-append,
}
use mathlib.Core.Path.{subst}
use ezviz_hp.Base.Bytes.{Bytes, All}
use ezviz_hp.Cpd7.Ciphers.{Ciphers}
use ezviz_hp.Cpd7.Decoder.{StreamDecoder, new_decoder, feed, take}
use ezviz_hp.Cpd7.Decoder.Segments.{concat, pump_segments, pump_segments-take}
use ezviz_hp.Cpd7.Decoder.Gate.{IsGoodStart, GateInv, opened, closed, feed-GateInv}
use ezviz_hp.Relay.Buffer.{extend_buffer, buffer_trim_target}
use ezviz_hp.Relay.State.{Relay}
use ezviz_hp.Relay.Session.{pump_round, pump_ends}

module _ {Priv Pub : Type 0} (c : Ciphers Priv Pub) where
  -- The loop over what `read_chunk` returns, an empty read being the end, as the end of the list is.
  unfoldable pub pump_upstream : StreamDecoder Priv → List Bytes → Relay → Relay
  unfolding take
  pump_upstream d [] s = pump_ends false s
  pump_upstream d ([] ∷ raws) s = pump_ends false s
  pump_upstream d ((x ∷ raw) ∷ raws) s =
      let (plain, d') = take (feed c d (x ∷ raw)) in
      pump_upstream d' raws (pump_round plain false s)

  -- The relay has taken the bytes `out` into account.
  pub record Pumped (out : Bytes) (s r : Relay) : Type 0 where
    pub bytes : r.session_bytes ≡ s.session_bytes + length out
    pub buffer : length s.buffer + length out ≤ buffer_trim_target → r.buffer ≡ s.buffer ++ out

  Pumped-round : (plain : Bytes) (s : Relay) → Pumped plain s (pump_round plain false s)
  unfolding pump_round extend_buffer
  Pumped-round [] s = record { bytes = omega arith; buffer = λ h. sym (append-nil s.buffer) }
  Pumped-round (x ∷ plain) s = record {
    bytes = refl;
    buffer = λ h.
        let short : ltb buffer_trim_target (length (s.buffer ++ x ∷ plain)) ≡ false =
          ground (arith, length-append s.buffer (x ∷ plain), h) in
        rw short;
  }

  Pumped-Pumped : (a b : Bytes) (s r t : Relay) → Pumped a s r → Pumped b r t → Pumped (a ++ b) s t
  Pumped-Pumped a b s r t h k = record {
    bytes = omega (arith, h.bytes, k.bytes, length-append a b);
    buffer = λ small.
        let first = h.buffer (omega (arith, small, length-append a b)) in
        k.buffer
          (omega (arith, small, length-append a b, ap length first, length-append s.buffer a))
        ∙ ap (λ x. x ++ b) first
        ∙ append_assoc s.buffer a b;
  }

  Pumped-end : (s : Relay) → Pumped [] s (pump_ends false s)
  unfolding pump_ends
  Pumped-end s = record { bytes = omega arith; buffer = λ h. sym (append-nil s.buffer) }

  Pumped-segments :
      (raws : List Bytes) (d : StreamDecoder Priv) (s : Relay)
      → All (λ raw. 0 < length raw) raws
      → d.out ≡ []
      → Pumped (pump_segments c d raws).0 s (pump_upstream d raws s)
  unfolding pump_upstream pump_segments take
  Pumped-segments [] d s h e = subst (λ x. Pumped x s (pump_ends false s)) (sym e) (Pumped-end s)
  Pumped-segments ([] ∷ raws) d s h e = absurd (omega (arith, h.0))
  Pumped-segments ((x ∷ raw) ∷ raws) d s h e =
      let after = feed c d (x ∷ raw) in
      let d' = record after { out = [] } in
      Pumped-Pumped after.out _ s (pump_round after.out false s) _ (Pumped-round after.out s)
        (Pumped-segments raws d' (pump_round after.out false s) h.1 refl)

  GateInv-out : (d : StreamDecoder Priv) → GateInv d → (d.out ≡ []) ⊎ IsGoodStart d.out
  GateInv-out d (closed m e k b) = inl e
  GateInv-out d (opened m g k) = inr g

  -- A session that starts with an empty buffer and a fresh decoder, whatever the pieces in which the
  -- LAN is read: the relay counts exactly the plaintext of the whole, and as long as that is no longer
  -- than the size at which the buffer is trimmed, the buffer is the plaintext, so it is empty or has a
  -- good start.
  pub pump_upstream-Pumped :
      (priv : Priv) (raws : List Bytes) (s : Relay)
      → All (λ raw. 0 < length raw) raws
      → s.buffer ≡ []
      → let out = (feed c (new_decoder priv) (concat raws)).out in
        let r = pump_upstream (new_decoder priv) raws s in
        (r.session_bytes ≡ s.session_bytes + length out)
        × (((r.buffer ≡ out) × ((r.buffer ≡ []) ⊎ IsGoodStart r.buffer))
            ⊎ (buffer_trim_target < length out))
  unfolding take
  pump_upstream-Pumped priv raws s h e =
      let d = new_decoder priv in
      let out = (feed c d (concat raws)).out in
      let whole : (pump_segments c d raws).0 ≡ out = ap (λ p. p.0) (pump_segments-take c d raws) in
      let p =
        subst (λ x. Pumped x s (pump_upstream d raws s)) whole (Pumped-segments raws d s h refl) in
      let size : (length out ≤ buffer_trim_target) ⊎ (buffer_trim_target < length out) =
        omega arith in
      (
        p.bytes,
        elim size [
          | inr large ↦ inr large
          | inl small ↦
              let kept = p.buffer (omega (arith, small, ap length e)) ∙ ap (λ x. x ++ out) e in
              inl (
                kept,
                subst (λ x. (x ≡ []) ⊎ IsGoodStart x) (sym kept)
                    (GateInv-out (feed c d (concat raws)) (feed-GateInv c priv (concat raws))),
              )
        ],
      )
