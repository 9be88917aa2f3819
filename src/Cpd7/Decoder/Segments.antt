-- ===== src/Cpd7/Decoder/Segments.antt =====
-- `feed` and `take` of decoder.py over the segments in which the relay's pump reads the socket.
use ezviz_hp.Base.{List, [], ◌∷◌, ◌++◌, ◌≡◌, refl, sym, ap, ◌∙◌, append_assoc, append-nil}
use ezviz_hp.Base.Bytes.{Bytes}
use ezviz_hp.Cpd7.Ciphers.{Ciphers}
use ezviz_hp.Cpd7.Decoder.{StreamDecoder, feed, take}
use ezviz_hp.Cpd7.Decoder.Framing.{prepend, settle-prepend, settle-settle}

-- Everything that the segments hold.
abbrev pub concat : List Bytes → Bytes
concat [] = []
concat (x ∷ xs) = x ++ concat xs

module _ {Priv Pub : Type 0} (c : Ciphers Priv Pub) where
  -- The pump: each segment is fed and the output taken; the outputs one after another.
  unfoldable pub pump_segments : StreamDecoder Priv → List Bytes → Bytes × StreamDecoder Priv
  unfolding take
  pump_segments d [] = take d
  pump_segments d (x ∷ xs) =
      let (plain, d') = take (feed c d x) in
      let (rest, d'') = pump_segments d' xs in (plain ++ rest, d'')

  -- Feeding bytes in two calls is feeding them in one.
  feed-append : (d : StreamDecoder Priv) (x y : Bytes) → feed c (feed c d x) y ≡ feed c d (x ++ y)
  unfolding feed
  feed-append d [] y = refl
  feed-append d (a ∷ x) [] = rw append-nil
  feed-append d (a ∷ x) (b ∷ y) =
      settle-settle c (record d { buf = d.buf ++ a ∷ x }) [] (b ∷ y) ∙ rw append_assoc

  feed-prepend :
      (d : StreamDecoder Priv) (o x : Bytes) → feed c (prepend o d) x ≡ prepend o (feed c d x)
  unfolding feed
  feed-prepend d o [] = refl
  feed-prepend d o (a ∷ x) = settle-prepend c (record d { buf = d.buf ++ a ∷ x }) o

  -- Whatever the segments, and though the output is taken after each, the bytes handed on and the
  -- decoder left are those of one `feed` of the whole and one `take`.
  pub pump_segments-take :
      (d : StreamDecoder Priv) (xs : List Bytes) → pump_segments d xs ≡ take (feed c d (concat xs))
  unfolding pump_segments
  pump_segments-take d [] = unfold feed in refl
  pump_segments-take d (x ∷ xs) =
      let e = feed c d x in
      let rest = record e { out = [] } in
      let whole : feed c d (x ++ concat xs) ≡ prepend e.out (feed c rest (concat xs)) =
        sym (feed-append d x (concat xs))
        ∙ ap (λ r. feed c (record e { out = r }) (concat xs)) (sym (append-nil e.out))
        ∙ feed-prepend rest e.out (concat xs) in
      rw (pump_segments-take rest xs, whole)
