-- ===== src/System/Delivery.antt =====
-- client/client_fuse.cpp, shared/tls.cpp and replica/replica_fuse.cpp together: from the calls of the client over the
-- bytes on a connection to the calls of a replica.
use disk_tees.Prelude.{
  ℕ, suc, ℤ, minus_one, Bool, true, ◌≡◌, refl, sym, ap, ◌∙◌, List, [], ◌++◌, ◌∷◌, map, Bytes, All,
  ok, length,
}
use disk_tees.Shared.Ballot.{Ballot}
use disk_tees.Shared.NetworkConfig.{Addresses}
use disk_tees.Shared.Os.{Os}
use disk_tees.Shared.Transport.{Transport, broadcast_all}
use disk_tees.Shared.Messages.{ClientMsg, ReplicaMsg}
use disk_tees.Shared.Messages.Stream.{writes_in}
use disk_tees.Shared.Tls.{Ssl, Openssl, Sockets, Platform, Codec, Tls, Options}
use disk_tees.Shared.Tls.Streams.{IsReading}
use disk_tees.Shared.Tls.Writing.{IsWriting, IsPlatform, IsCodec}
use disk_tees.Shared.Tls.Fifo.{Fits, frames, recv_many, recvs_lem}
use disk_tees.Shared.Tls.Carrier.{Network, tls_transport, tls_transport-IsTransport}
use disk_tees.Shared.Tls.Delivered.{IsHealthy, Connected, broadcasts_lem}
use disk_tees.Replica.Store.{Store}
use disk_tees.Replica.State.{Replica}
use disk_tees.Replica.Main.{Round, serve}
use disk_tees.Replica.Replay.{redo_all}
use disk_tees.Replica.Replay.Order.{IsReady}
use disk_tees.Replica.Replay.Streamed.{heard, served_in_order}
use disk_tees.Replica.Replay.Taking.{IsAnswering}
use disk_tees.Client.State.{Client, new_client}
use disk_tees.Client.Trace.{Call, perform_all}
use disk_tees.Client.Trace.Writes.{messages_of}
use disk_tees.Client.Trace.Carried.{broadcasts_only}

-- An object `TLS` of which nothing was asked yet.
abbrev pub fresh : {W M : Type 0} → Tls W → Network W M
fresh t = record { live = ok t; to_all = []; to_one = [] }

-- A new client that has served calls over the connections `t`.
abbrev pub client_over :
    {V W : Type 0}
    → Openssl W
    → Sockets W
    → Platform W
    → Codec ClientMsg
    → Options
    → ℕ
    → Os V
    → Bool
    → Ballot
    → Bytes
    → ℤ
    → Addresses
    → V
    → Tls W
    → List Call
    → Client V (Network W ClientMsg)
client_over lib socks machine codec opts fuel os metrics b point quorum rs v t ks =
    perform_all os (tls_transport lib socks machine codec opts fuel) ks
      (new_client true metrics b point quorum rs v (fresh t))

module _ {V W : Type 0} (lib : Openssl W) (socks : Sockets W) (machine : Platform W)
    (codec : Codec ClientMsg) (opts : Options) (fuel reads : ℕ) (written : Ssl → W → List Bytes)
    (split : Bytes → List Bytes) (hw : IsWriting lib socks written split) (hm : IsPlatform machine)
    (hh : IsHealthy lib written) where
  -- The frames of what was broadcast are on the connection of the replica.
  written_lem :
      (os : Os V) (metrics : Bool) (b : Ballot) (point : Bytes) (quorum : ℤ)
      (before after : Addresses) (addr : Bytes) (v : V) (t : Tls W) (ks : List Call) (dest : Ssl)
      (sock : ℤ) (ps : List (ClientMsg × Bytes))
      → Connected lib socks machine codec fuel written split hw hm hh opts reads dest sock addr
          before after t
      → let c =
          client_over lib socks machine codec opts
            (suc fuel)
            os
            metrics
            b
            point
            quorum
            (before ++ addr ∷ after)
            v
            t
            ks in
        map (λ p. p.0) ps ≡ messages_of c.net.to_all
        → All (Fits lib socks machine codec reads split) ps
        → (w : W) × (c.net.live ≡ ok (record t { world = w }))
          × (written dest w ≡ written dest t.world ++ frames lib socks machine codec reads split ps)
  unfolding tls_transport
  written_lem os metrics b point quorum before after addr v t ks dest sock ps conn same fit =
      let rs = before ++ addr ∷ after in
      let tls = tls_transport lib socks machine codec opts (suc fuel) in
      let c =
        client_over lib socks machine codec opts (suc fuel) os metrics b point quorum rs v t ks in
      let only =
        (broadcasts_only os tls (tls_transport-IsTransport lib socks machine codec opts (suc fuel))
          true metrics b point quorum rs v (fresh t) ks refl).0 in
      let sent =
        broadcasts_lem lib socks machine codec fuel written split hw hm hh opts reads dest sock addr
          before after ps t (fresh t) fit conn refl in
      let carried : c.net ≡ broadcast_all tls (map (λ p. p.0) ps) rs (fresh t) =
        only ∙ ap (λ ms. broadcast_all tls ms rs (fresh t)) (sym same) in
      rw carried sent

  -- Let a new client, whose connection to one of its replicas is open beside others, serve calls of `Call`, fsyncs among
  -- them, and hear messages over connections of which none fails, and let the data of what it broadcasts, writes and
  -- fsyncs, fit. Then the frames of all this are written to the connection of that replica, and where they arrive in
  -- front of other records, as many calls of `recv` return the messages, in their order. Let the rounds of the main
  -- loop of the replica find these messages in this order (the program finds at most one of a connection in a round),
  -- let it be ready for the client's ballot with nothing written, let redoing the writes on its store end well, and let
  -- its answers be sent or thrown back. Then its main loop ends well, whatever fuel above 0 the loop over the pending
  -- writes has, with the store that redoing the writes gives, and with the client's `written`.
  pub delivered :
      {R N : Type 0} (records : Ssl → W → List Bytes) (client_os : Os V) (os : Os R)
      (tls : Transport ReplicaMsg N) (ccf_fuel rounds : ℕ) (metrics : Bool) (b : Ballot)
      (point : Bytes) (quorum : ℤ) (before after : Addresses) (addr : Bytes) (v : V) (t u : Tls W)
      (ks : List Call) (dest src : Ssl) (sock sock' : ℤ) (ps : List (ClientMsg × Bytes))
      (rest : List Bytes) (final : Store R) (xs : List Round) (s : Replica R N)
      → IsReading lib records
      → IsCodec codec
      → IsAnswering tls
      → Connected lib socks machine codec fuel written split hw hm hh opts reads dest sock addr
          before after t
      → let c =
          client_over lib socks machine codec opts
            (suc fuel)
            client_os
            metrics
            b
            point
            quorum
            (before ++ addr ∷ after)
            v
            t
            ks in
        let stream = messages_of c.net.to_all in
        let sent = frames lib socks machine codec reads split ps in
        map (λ p. p.0) ps ≡ stream
        → All (Fits lib socks machine codec reads split) ps
        → records src u.world ≡ sent ++ rest
        → heard xs ≡ stream
        → IsReady b minus_one s
        → redo_all os (writes_in stream) s.store ≡ ok final
        → (w : W) × (u' : Tls W) × (r : Replica R N) × (c.net.live ≡ ok (record t { world = w }))
          × (written dest w ≡ written dest t.world ++ sent)
          × (recv_many lib socks machine codec reads (length ps) sock' src u ≡ ok (stream, u'))
          × (serve ccf_fuel os tls (suc rounds) xs s ≡ ok r)
          × (r.store ≡ final)
          × (r.written ≡ c.written)
  unfolding tls_transport
  delivered records client_os os tls ccf_fuel rounds metrics b point quorum before after addr v t u
        ks dest src sock sock' ps rest final xs s hr hc ha conn same fit arrived found ready
        redone =
      let rs = before ++ addr ∷ after in
      let (w, live, grown) =
        written_lem client_os metrics b point quorum before after addr v t ks dest sock ps conn same
          fit in
      let (u', read, _) =
        recvs_lem lib socks machine codec reads split records hr hm hc written hw ps sock' src u
          rest fit arrived in
      let (_, stream) =
        broadcasts_only client_os (tls_transport lib socks machine codec opts (suc fuel))
          (tls_transport-IsTransport lib socks machine codec opts (suc fuel)) true metrics b point
          quorum rs v (fresh t) ks refl in
      let (r, served, store, count) =
        served_in_order ccf_fuel os tls b rounds xs minus_one _ final s ha ready (rw found stream)
          (rw found redone) in
      (w, u', r, live, grown, read ∙ ap (λ ms. ok (ms, u')) same, served, store, count)
