-- ===== src/Socket/Exact.antt =====
-- The reading loops give the bytes of the stream, however the network cuts it.
use ezviz_hp.Base.{
  ◌⊎◌, inl, inr, take-append_exact, drop-append_exact, ℕ, zero, suc, ◌+◌, ◌-◌, ◌≤◌, ◌<◌, Option,
  none, some, [], ◌∷◌, ◌++◌, ◌≡◌, refl, sym, ap, ap₂, ◌∙◌, arith, append_assoc, append-nil, length,
  take, drop, length-append, length-take, take-append-drop, take-append_more, drop-append_more,
}
use native.Mathlib.Decide.{dec_lt}
use ezviz_hp.Base.Bytes.{Bytes, All}
use ezviz_hp.Socket.{Incoming, put_back, recv, recv_loop, recv_exact}

-- Everything that is still to come.
abbrev pub stream : Incoming → Bytes
stream [] = []
stream (piece ∷ rest) = piece ++ stream rest

-- The network delivers no empty piece: an empty read means that the peer has closed.
abbrev pub IsIncoming : Incoming → Type 0
IsIncoming = All (λ piece. 0 < length piece)

stream-put_back :
    (piece : Bytes) (rest : Incoming) → stream (put_back piece rest) ≡ piece ++ stream rest
unfolding put_back
stream-put_back [] rest = refl
stream-put_back (x ∷ piece) rest = refl

put_back-IsIncoming :
    (piece : Bytes) (rest : Incoming) → IsIncoming rest → IsIncoming (put_back piece rest)
unfolding put_back
put_back-IsIncoming [] rest h = h
put_back-IsIncoming (x ∷ piece) rest h = (omega arith, h)

-- What is left after `k` bytes is read is the rest of the stream.
record Reads (k : ℕ) (sock : Incoming) (chunk : Bytes) (sock' : Incoming) : Type 0 where
  some_read : 0 < length chunk
  no_more : length chunk ≤ k
  splits : stream sock ≡ chunk ++ stream sock'
  incoming : IsIncoming sock'

recv-Reads :
    (k : ℕ) (sock : Incoming)
    → 0 < k
    → IsIncoming sock
    → 0 < length (stream sock)
    → Reads k sock (recv k sock).0 (recv k sock).1
unfolding recv
recv-Reads k [] p h q = absurd (omega arith)
recv-Reads k (piece ∷ rest) p h q = record {
  some_read = omega (arith, length-take k piece, h.0);
  no_more = omega (arith, length-take k piece);
  splits = sym (
      rw stream-put_back (
        sym (append_assoc (take k piece) (drop k piece) (stream rest))
        ∙ ap (λ x. x ++ stream rest) (take-append-drop k piece)));
  incoming = put_back-IsIncoming (drop k piece) rest h.1;
}

recv_loop_done :
    (fuel : ℕ) (out : Bytes) (n : ℕ) (sock : Incoming)
    → n ≤ length out
    → recv_loop fuel out n sock ≡ some (out, sock)
unfolding recv_loop
recv_loop_done zero out n sock h = ground arith
recv_loop_done (suc fuel) out n sock h = ground arith

recv_loop_step :
    (fuel : ℕ) (out : Bytes) (n : ℕ) (sock : Incoming)
    → length out < n
    → 0 < length (recv (n - length out) sock).0
    → recv_loop (suc fuel) out n sock
      ≡ recv_loop fuel (out ++ (recv (n - length out) sock).0) n (recv (n - length out) sock).1
unfolding recv_loop
recv_loop_step fuel out n sock h p = go (recv (n - length out) sock).0 refl p
  where
    go :
        (chunk : Bytes)
        → (recv (n - length out) sock).0 ≡ chunk
        → 0 < length chunk
        → recv_loop (suc fuel) out n sock
          ≡ recv_loop fuel (out ++ (recv (n - length out) sock).0) n (recv (n - length out) sock).1
    go [] e q = absurd (omega arith)
    go (x ∷ xs) e q = ground arith

recv_loop_eof : (fuel : ℕ) (out : Bytes) (n : ℕ) → length out < n → recv_loop fuel out n [] ≡ none
unfolding recv_loop recv
recv_loop_eof zero out n h = ground arith
recv_loop_eof (suc fuel) out n h = ground arith

-- The peer closes before `n` bytes have come.
recv_loop_closed :
    (fuel : ℕ) (out : Bytes) (n : ℕ) (sock : Incoming)
    → IsIncoming sock
    → length out + length (stream sock) < n
    → recv_loop fuel out n sock ≡ none
recv_loop_closed fuel out n [] h lt = recv_loop_eof fuel out n (omega arith)
recv_loop_closed zero out n (piece ∷ rest) h lt = unfold recv_loop in ground arith
recv_loop_closed (suc fuel) out n (piece ∷ rest) h lt =
    let sock = piece ∷ rest in
    let k = n - length out in
    let r =
      recv-Reads k sock (omega arith) h (omega (arith, h.0, length-append piece (stream rest))) in
    let next = (recv k sock).1 in
    recv_loop_step fuel out n sock (omega arith) r.some_read
    ∙ recv_loop_closed fuel (out ++ (recv k sock).0) n next r.incoming (
        omega (
          arith,
          length-append out (recv k sock).0,
          ap length r.splits,
          length-append (recv k sock).0 (stream next),
        ))

-- The result of reading up to `n` bytes, `out` being there already.
pub record Got (out : Bytes) (n : ℕ) (sock : Incoming) (r : Option (Bytes × Incoming))
    : Type 0 where
  pub left : Incoming
  pub result : r ≡ some (out ++ take (n - length out) (stream sock), left)
  pub rest : stream left ≡ drop (n - length out) (stream sock)
  pub incoming : IsIncoming left

-- What the rest of the loop gets, the loop gets.
Got-step :
    (out chunk : Bytes) (n : ℕ) (sock sock' : Incoming) (r : Option (Bytes × Incoming))
    → length out ≤ n
    → Reads (n - length out) sock chunk sock'
    → Got (out ++ chunk) n sock' r
    → Got out n sock r
Got-step out chunk n sock sock' r le x g =
    let a = n - length (out ++ chunk) in
    let e : n - length out ≡ length chunk + a = omega (arith, length-append out chunk, x.no_more) in
    record {
      left = g.left;
      result =
          g.result
          ∙ ap (λ ys. some (ys, g.left))
              (append_assoc out chunk (take a (stream sock'))
                ∙ ap (λ ys. out ++ ys)
                    (sym (
                      ap (take (n - length out)) x.splits
                      ∙ ap (λ (k : ℕ). take k (chunk ++ stream sock')) e
                      ∙ take-append_more a chunk (stream sock'))));
      rest =
          g.rest
          ∙ sym (
              ap (drop (n - length out)) x.splits
              ∙ ap (λ (k : ℕ). drop k (chunk ++ stream sock')) e
              ∙ drop-append_more a chunk (stream sock'));
      incoming = g.incoming;
    }

Got-done :
    (fuel : ℕ) (out : Bytes) (n : ℕ) (sock : Incoming)
    → IsIncoming sock
    → length out ≡ n
    → Got out n sock (recv_loop fuel out n sock)
Got-done fuel out n sock h e =
    let zero_left : n - length out ≡ 0 = omega arith in
    record {
      left = sock;
      result = recv_loop_done fuel out n sock (omega arith) ∙ rw (zero_left, append-nil);
      rest = rw zero_left;
      incoming = h;
    }

recv_loop-Got :
    (fuel : ℕ) (out : Bytes) (n : ℕ) (sock : Incoming)
    → IsIncoming sock
    → length out ≤ n
    → n ≤ length out + length (stream sock)
    → n ≤ length out + fuel
    → Got out n sock (recv_loop fuel out n sock)
recv_loop-Got zero out n sock h le enough f = Got-done zero out n sock h (omega arith)
recv_loop-Got (suc fuel) out n sock h le enough f = elim (dec_lt (length out) n) [
  | no p ↦ Got-done (suc fuel) out n sock h (omega arith)
  | yes p ↦
      let k = n - length out in
      let r = recv-Reads k sock (omega arith) h (omega arith) in
      let chunk = (recv k sock).0 in
      let next = (recv k sock).1 in
      rw (recv_loop_step fuel out n sock p r.some_read) (
        Got-step out chunk n sock next _ le r (
          recv_loop-Got fuel (out ++ chunk) n next r.incoming
            (omega (arith, length-append out chunk, r.no_more))
            (omega (
              arith,
              length-append out chunk,
              ap length r.splits,
              length-append chunk (stream next),
            ))
            (omega (arith, length-append out chunk, r.some_read))))
]

recv_exact-Got :
    (n : ℕ) (sock : Incoming)
    → IsIncoming sock
    → n ≤ length (stream sock)
    → Got [] n sock (recv_exact n sock)
unfolding recv_exact
recv_exact-Got n sock h enough =
    recv_loop-Got n [] n sock h (omega arith) (omega arith) (omega arith)

-- However the network cuts the stream, `_recv_exact` returns its first `n` bytes, and the rest stays
-- to be read; it raises exactly where the peer closes before.
pub recv_exact_lem :
    (n : ℕ) (sock : Incoming)
    → IsIncoming sock
    → ((n ≤ length (stream sock)) × Got [] n sock (recv_exact n sock))
      ⊎ ((length (stream sock) < n) × (recv_exact n sock ≡ none))
unfolding recv_exact
recv_exact_lem n sock h =
    let size : (n ≤ length (stream sock)) ⊎ (length (stream sock) < n) = omega arith in
    elim size [
      | inl enough ↦ inl (enough, recv_exact-Got n sock h enough)
      | inr short ↦ inr (short, recv_loop_closed n [] n sock h (omega arith))
    ]

-- A read of the part that comes first.
pub record Part (x rest : Bytes) (r : Option (Bytes × Incoming)) : Type 0 where
  pub left : Incoming
  pub result : r ≡ some (x, left)
  pub follows : stream left ≡ rest
  pub incoming : IsIncoming left

pub recv_exact-Part :
    (x rest : Bytes) (n : ℕ) (sock : Incoming)
    → IsIncoming sock
    → stream sock ≡ x ++ rest
    → length x ≡ n
    → Part x rest (recv_exact n sock)
recv_exact-Part x rest n sock h e l =
    let g = recv_exact-Got n sock h (omega (arith, ap length e, length-append x rest)) in
    let all : n - 0 ≡ n = omega arith in
    record {
      left = g.left;
      result =
          g.result ∙ ap (λ y. some (y, g.left)) (ap₂ take all e ∙ take-append_exact n x rest l);
      follows = g.rest ∙ ap₂ drop all e ∙ drop-append_exact n x rest l;
      incoming = g.incoming;
    }
