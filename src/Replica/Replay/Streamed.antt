-- ===== src/Replica/Replay/Streamed.antt =====
-- replica/main.cpp: the loop of a replica that hears what a client sends, writes and fsyncs, in the order of sending.
use disk_tees.Prelude.{
  ℕ, suc, ℤ, pos, ◌+ℤ◌, ◌≡◌, refl, ap, ◌∙◌, inl, inr, List, [], ◌∷◌, ◌++◌, map, ok, >>=-eq-ok,
  arith, Outcome,
}
use disk_tees.Shared.Ballot.{Ballot}
use disk_tees.Shared.Os.{Os}
use disk_tees.Shared.Transport.{Transport}
use disk_tees.Shared.Messages.{ClientMsg, ReplicaMsg, FsyncParams}
use disk_tees.Shared.Messages.Kind.{get_client_msg_type}
use disk_tees.Shared.Messages.Stream.{IsStream, IsSync, writes_in}
use disk_tees.Replica.Store.{Store}
use disk_tees.Replica.State.{Replica}
use disk_tees.Replica.Protocol.{on_fsync}
use disk_tees.Replica.Buffer.{redo, buffer_msg}
use disk_tees.Replica.Main.{Arrival, Round, caught, take_all, serve_round, serve}
use disk_tees.Replica.Replay.{redo_all}
use disk_tees.Replica.Replay.Order.{IsReady}
use disk_tees.Replica.Replay.Taking.{
  IsAnswering, quiet, no_timeout, write_taken, fsync_arrives, answered,
}

-- The messages that the rounds find, one after the other.
unfoldable pub heard : List Round → List ClientMsg
heard [] = []
heard (x ∷ xs) = map (λ a. a.msg) x.arrivals ++ heard xs

module _ {W N : Type 0} (fuel : ℕ) (os : Os W) (tls : Transport ReplicaMsg N) (b : Ballot) where
  -- What is left to redo, behind what was taken.
  record Taken (k : ℤ) (final : Store W) (rest : List ClientMsg) (m : Outcome (Replica W N))
      : Type 0 where
    n : ℤ
    t : Replica W N
    ends : m ≡ ok t
    calm : IsReady b n t
    stream : IsStream b n rest k
    left : redo_all os (writes_in rest) t.store ≡ ok final

  take_one :
      (a : Arrival) (rest : List ClientMsg) (n k : ℤ) (final : Store W) (s : Replica W N)
      → IsAnswering tls
      → IsReady b n s
      → IsStream b n (a.msg ∷ rest) k
      → redo_all os (writes_in (a.msg ∷ rest)) s.store ≡ ok final
      → Taken k final rest (caught fuel os tls a.addr (buffer_msg fuel os tls a.now a.msg a.addr s))
  unfolding IsStream IsSync writes_in redo_all caught get_client_msg_type
  take_one a rest n k final s h v (inl (w, others)) e =
      let (u, redone, left) =
        >>=-eq-ok (redo os a.msg s.store) (λ t. redo_all os (writes_in rest) t)
          (rw (writes_in, w.kind) at e) in
      record {
        n = n +ℤ pos 1;
        t = record s { sender = a.addr; store = u; written = s.written +ℤ pos 1 };
        ends = rw (write_taken fuel os tls b a.now a.addr a.msg n s u v w redone) refl;
        calm = record {
          at = ap (λ i. i +ℤ pos 1) v.at;
          highest = v.highest;
          normal = v.normal;
          idle = v.idle;
          empty = v.empty;
        };
        stream = others;
        left = left;
      }
  take_one a rest n k final s h v (inr ((fi, same), others)) e =
      let p : FsyncParams = record { seq = n; r = b; fi = fi } in
      let t = record s { sender = a.addr } in
      let (net, back) = answered fuel os tls b a.addr p t h in
      let came : buffer_msg fuel os tls a.now a.msg a.addr s ≡ on_fsync tls p t =
        rw same (fsync_arrives fuel os tls b a.now a.addr p n s v refl refl) in
      record {
        n = n;
        t = record t { net = net };
        ends = ap (caught fuel os tls a.addr) came ∙ back;
        calm = record {
          at = v.at;
          highest = v.highest;
          normal = v.normal;
          idle = v.idle;
          empty = v.empty;
        };
        stream = others;
        left = rw (writes_in, same) at e;
      }

  take_many :
      (xs : List Arrival) (rest : List ClientMsg) (n k : ℤ) (final : Store W) (s : Replica W N)
      → IsAnswering tls
      → IsReady b n s
      → IsStream b n (map (λ a. a.msg) xs ++ rest) k
      → redo_all os (writes_in (map (λ a. a.msg) xs ++ rest)) s.store ≡ ok final
      → Taken k final rest (take_all fuel os tls xs s)
  unfolding take_all
  take_many [] rest n k final s h v c e = record {
    n = n;
    t = s;
    ends = refl;
    calm = v;
    stream = c;
    left = e;
  }
  take_many (a ∷ xs) rest n k final s h v c e =
      let x = take_one a (map (λ a. a.msg) xs ++ rest) n k final s h v c e in
      let y = take_many xs rest x.n k final x.t h x.calm x.stream x.left in
      record {
        n = y.n;
        t = y.t;
        ends = rw (x.ends) (y.ends);
        calm = y.calm;
        stream = y.stream;
        left = y.left;
      }

  -- Let a stream of ballot `b` from `n` to `k` reach a replica that is ready for it at `n`, its messages in their
  -- order, distributed over the rounds of the replica's main loop in whatever way (the program finds at most one of a
  -- connection in a round), some rounds with none. Let redoing its writes on the store end well, and let each answer be
  -- sent or thrown back. Then the loop ends well, one round of fuel being enough for what is pending, with the store as
  -- redoing the writes makes it and with `k` written.
  pub served_in_order :
      (rounds : ℕ) (xs : List Round) (n k : ℤ) (final : Store W) (s : Replica W N)
      → IsAnswering tls
      → IsReady b n s
      → IsStream b n (heard xs) k
      → redo_all os (writes_in (heard xs)) s.store ≡ ok final
      → (t : Replica W N) × (serve fuel os tls (suc rounds) xs s ≡ ok t)
        × (t.store ≡ final)
        × (t.written ≡ k)
  unfolding serve serve_round heard IsStream writes_in redo_all
  served_in_order rounds [] n k final s h v c e = (s, refl, ground arith, v.at ∙ c)
  served_in_order rounds (x ∷ xs) n k final s h v c e =
      let y = take_many x.arrivals (heard xs) n k final s h v c e in
      let (t, ends, store, written) =
        served_in_order rounds xs y.n k final y.t h y.calm y.stream y.left in
      let settled = quiet fuel os tls b rounds y.n y.t y.calm in
      let waited = no_timeout fuel os tls b x.now y.n y.t y.calm in
      (t, rw (y.ends, settled, waited) ends, store, written)
