-- ===== src/Proxy/Order.antt =====
-- What a proxied server receives first (src/proxy.rs).
use plexsoftware.Prelude.{
  ℕ, ◌≡◌, refl, ap, ◌∙◌, List, [], ◌∷◌, ◌++◌, some, Outcome, ok, ◌>>=◌, >>=-eq-ok, arith,
  append-nil, or_err,
}
use plexsoftware.Proto.Action.{Outbound, write_all}
use plexsoftware.Service.{ProxyHeader, no_header, local_header, proxy_header}
use plexsoftware.Proxy.{
  HeaderCodec, Stream, local_proxy_header, stream_proxy_header, write_header, write_queue,
  proxy_inbound_outbound_with_queue, proxy_with_queue,
}

-- All bytes that were written, the first ones first.
abbrev pub sent_bytes : List (List ℕ) → List ℕ
sent_bytes [] = []
sent_bytes (packet ∷ earlier) = sent_bytes earlier ++ packet

module _ (codec : HeaderCodec) where
  -- The header that the kind asks for, if it can be made.
  abbrev pub header_bytes : ProxyHeader → Stream → Outcome (List ℕ)
  header_bytes no_header inbound = ok []
  header_bytes local_header inbound = or_err (local_proxy_header codec)
  header_bytes proxy_header inbound = stream_proxy_header codec inbound

  write_queue_sent :
      (queue : List ℕ) (out out' : Outbound)
      → write_queue codec queue out ≡ ok out'
      → sent_bytes out'.written ≡ sent_bytes out.written ++ queue
  unfolding write_queue write_all
  write_queue_sent [] out out' e = ground (arith, e, append-nil (sent_bytes out.written))
  write_queue_sent (b ∷ queue) out out' e = ground (arith, e)

  write_header_sent :
      (h : ProxyHeader) (inbound : Stream) (out out' : Outbound)
      → write_header codec h inbound out ≡ ok out'
      → (header : List ℕ) × (header_bytes h inbound ≡ ok header)
        × (sent_bytes out'.written ≡ sent_bytes out.written ++ header)
  unfolding write_header write_all
  write_header_sent no_header inbound out out' e =
      ([], refl, ground (arith, e, append-nil (sent_bytes out.written)))
  write_header_sent local_header inbound out out' e =
      let (header, made, sent) = >>=-eq-ok (or_err (local_proxy_header codec)) _ e in
      (header, made, ground (arith, sent))
  write_header_sent proxy_header inbound out out' e =
      let (header, made, sent) = >>=-eq-ok (stream_proxy_header codec inbound) _ e in
      (header, made, ground (arith, sent))

  -- Both sides are sent their queue, the client first.
  pub relay_sent :
      (inbound outbound to_client to_server : Outbound) (inbound_queue outbound_queue : List ℕ)
      → proxy_inbound_outbound_with_queue codec inbound outbound inbound_queue outbound_queue
        ≡ ok (to_client, to_server)
      → (sent_bytes to_client.written ≡ sent_bytes inbound.written ++ inbound_queue)
        × (sent_bytes to_server.written ≡ sent_bytes outbound.written ++ outbound_queue)
  unfolding proxy_inbound_outbound_with_queue
  relay_sent inbound outbound to_client to_server inbound_queue outbound_queue e =
      let (client, one, rest) =
        >>=-eq-ok (write_queue codec inbound_queue inbound)
          (λ (c : Outbound). write_queue codec outbound_queue outbound >>= λ s. ok (c, s)) e in
      let (server, two, whole) =
        >>=-eq-ok (write_queue codec outbound_queue outbound) (λ (s : Outbound). ok (client, s))
          rest in
      let first = write_queue_sent inbound_queue inbound client one in
      let second = write_queue_sent outbound_queue outbound server two in
      (ground (arith, whole, first), ground (arith, whole, second))

  -- A connection that is proxied has sent its target the proxy header that was asked for, and then
  -- the queue, and nothing else before the bytes of the client; the client has been sent nothing.
  pub proxy_with_queue_sent :
      (inbound : Stream) (h : ProxyHeader) (connected to_client to_server : Outbound)
      (queue : List ℕ)
      → connected.written ≡ []
      → proxy_with_queue codec inbound h (some connected) queue ≡ ok (to_client, to_server)
      → (header : List ℕ) × (header_bytes h inbound ≡ ok header)
        × (sent_bytes to_server.written ≡ header ++ queue)
        × (sent_bytes to_client.written ≡ sent_bytes inbound.out.written)
  unfolding proxy_with_queue
  proxy_with_queue_sent inbound h connected to_client to_server queue fresh e =
      let (introduced, wrote, rest) =
        >>=-eq-ok (write_header codec h inbound connected)
          (λ (o : Outbound). proxy_inbound_outbound_with_queue codec inbound.out o [] queue) e in
      let (header, made, first) = write_header_sent h inbound connected introduced wrote in
      let (client_sent, server_sent) =
        relay_sent inbound.out introduced to_client to_server [] queue rest in
      (
        header,
        made,
        server_sent ∙ ap (λ (bs : List ℕ). bs ++ queue) (rw fresh at first),
        client_sent ∙ append-nil (sent_bytes inbound.out.written),
      )
