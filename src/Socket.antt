-- ===== src/Socket.antt =====
-- A connected socket, seen by its reader, and the loops that read a given number of bytes from it:
-- `_recv_exact` of custom_components/ezviz_hp7/pylocalapi/cas.py, and the two loops of
-- `_recv_response` of custom_components/ezviz_hp7/cpd7/lan_client.py.
pub mod Exact
use ezviz_hp.Base.{
  ℕ, zero, suc, ◌-◌, Option, none, some, List, [], ◌∷◌, ◌++◌, ltb, if◌then◌else◌, length, take,
  drop,
}
use ezviz_hp.Base.Bytes.{Bytes}

-- What the peer sends before it closes, in the pieces in which the network delivers it.
abbrev pub Incoming : Type 0
Incoming = List Bytes

-- What is left of a piece goes back in front.
put_back : Bytes → Incoming → Incoming
put_back [] rest = rest
put_back (x ∷ piece) rest = (x ∷ piece) ∷ rest

-- `sock.recv(n)`: at most `n` bytes of the next piece; nothing once the peer has closed
unfoldable pub recv : ℕ → Incoming → Bytes × Incoming
unfolding put_back
recv n [] = ([], [])
recv n (piece ∷ rest) = (take n piece, put_back (drop n piece) rest)

-- `while len(out) < n: chunk = sock.recv(n - len(out)); if not chunk: raise; out += chunk`.
-- A round that goes on reads a byte or more, so `n` rounds are enough.
unfoldable pub recv_loop : ℕ → Bytes → ℕ → Incoming → Option (Bytes × Incoming)
recv_loop zero out n sock = if ltb (length out) n then none else some (out, sock)
recv_loop (suc fuel) out n sock =
    let (chunk, sock') = recv (n - length out) sock in
    let rest = recv_loop fuel (out ++ chunk) n sock' in
    if ltb (length out) n then (elim chunk [ [] ↦ none | x ∷ xs ↦ rest ]) else some (out, sock)

-- `_recv_exact`; `none` stands for the exception at a closed connection
unfoldable pub recv_exact : ℕ → Incoming → Option (Bytes × Incoming)
recv_exact n sock = recv_loop n [] n sock
