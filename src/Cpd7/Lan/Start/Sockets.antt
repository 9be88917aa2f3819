-- ===== src/Cpd7/Lan/Start/Sockets.antt =====
-- The sockets that `start` of lan_client.py leaves open.
use ezviz_hp.Base.{ℕ, Option, none, some, List, [], ◌∷◌, ◌==◌, if◌then◌else◌, ◌≡◌, refl, ◌∙◌, arith}
use ezviz_hp.Base.Bytes.{Bytes}
use ezviz_hp.Base.Keeps.{keep_option}
use ezviz_hp.Socket.{Incoming}
use ezviz_hp.Cpd7.Lan.{Control, send_cmd, find_session, cmd_play, xml_play}
use ezviz_hp.Cpd7.Lan.Start.{
  Client, Connection, World, Probe, no_socket, connect_fails, name_fails, named, discover_local_ip,
  Event, opened, closed, exchange, play, invited, start,
}

-- taking a socket off the open ones
drop_socket : ℕ → List ℕ → List ℕ
drop_socket n [] = []
drop_socket n (m ∷ ms) = let rest = drop_socket n ms in if n == m then rest else m ∷ rest

-- The sockets that are open after a log, those before it given.
unfoldable pub open_after : List ℕ → List Event → List ℕ
unfolding drop_socket
open_after sockets [] = sockets
open_after sockets (opened n ∷ log) = open_after (n ∷ sockets) log
open_after sockets (closed n ∷ log) = open_after (drop_socket n sockets) log

-- Nothing is left open; or the probe, whose `connect` raised; or the client has a play socket, which is
-- the one that is open.
pub data Started (p : Probe) (r : Option Client × List Event) : Type 0 where
  failed : r.0 ≡ none → open_after [] r.1 ≡ [] → Started p r
  unconnected : p ≡ connect_fails → r.0 ≡ none → open_after [] r.1 ≡ 3 ∷ [] → Started p r
  playing :
      (c : Client) (sock : Incoming)
      → r.0 ≡ some c
      → c.play_sock ≡ some sock
      → open_after [] r.1 ≡ 2 ∷ []
      → Started p r

again : (n : ℕ) (log : List Event) → open_after [] (opened n ∷ closed n ∷ log) ≡ open_after [] log
unfolding open_after
again n log = ground arith

module _ (p : Probe) where
  prefixed :
      (n : ℕ) (r : Option Client × List Event)
      → Started p r
      → Started p (r.0, opened n ∷ closed n ∷ r.1)
  prefixed n r (failed e o) = failed e (again n r.1 ∙ o)
  prefixed n r (unconnected q e o) = unconnected q e (again n r.1 ∙ o)
  prefixed n r (playing c sock e q o) = playing c sock e q (again n r.1 ∙ o)

  exchange-Started :
      (n : ℕ) (o : Option Connection) (f : Connection → Option Bytes)
      (next : Bytes → Option Client × List Event)
      → ((plain : Bytes) → Started p (next plain))
      → Started p (exchange n o f next)
  unfolding exchange
  exchange-Started n none f next h = failed refl (unfold open_after in refl)
  exchange-Started n (some c) f next h =
      keep_option (Started p) (f c) _ _ (failed refl (again n [] ∙ (unfold open_after in refl)))
        (λ plain. prefixed n (next plain) (h plain))

discover-Started :
    (p : Probe) (next : Bytes → Option Client × List Event)
    → ((ip : Bytes) → Started p (next ip))
    → Started p (discover_local_ip p next)
unfolding discover_local_ip open_after
discover-Started no_socket next h = failed refl refl
discover-Started connect_fails next h = unconnected refl refl refl
discover-Started name_fails next h = failed refl (again 3 [])
discover-Started (named ip) next h = prefixed (named ip) 3 (next ip) (h ip)

module _ (k : Control) where
  play-Started :
      (p : Probe) (c : Client) (session : ℕ) (o : Option Connection)
      → Started p (play k c session o)
  unfolding play open_after
  play-Started p c session none = failed refl refl
  play-Started p c session (some conn) =
      keep_option (Started p)
        (send_cmd k c.aes_key 1 cmd_play (xml_play session) conn.accepted conn.incoming) _ _
        (failed refl refl) (λ (pkt, plain, left). playing _ left refl refl refl)

  invited-Started :
      (p : Probe) (c : Client) (w : World) (plain : Bytes) → Started p (invited k c w plain)
  unfolding invited open_after
  invited-Started p c w plain =
      keep_option (Started p) (find_session plain) _ _ (failed refl refl)
        (λ session. play-Started p c session w.play)

  -- Whatever the network and the doorbell do: a `start` that raises has closed every socket that it
  -- opened, but the probe of `_discover_local_ip` where its `connect` raised; and one that returns
  -- has closed all but the play socket, which the client then reads.
  pub start-Started : (c : Client) (w : World) → Started w.probe (start k c w)
  unfolding start open_after
  start-Started c w =
      keep_option (Started w.probe) c.play_sock _ _
        (discover-Started w.probe _ (λ my_ip.
          exchange-Started w.probe 0 w.init _ _
            (λ hello. exchange-Started w.probe 1 w.invite _ _ (invited-Started w.probe c w))))
        (λ sock. failed refl refl)
