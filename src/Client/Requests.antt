-- ===== src/Client/Requests.antt =====
-- network/client.go, `Request`, and the reply part of `dispatchMessage` of network/network.go: the
-- sections of the calls that touch the table of requests.
use noise.Base.{
  number_Key, ◌%◌, ◌+◌, Bool, Option, ◌^◌, false, if◌then◌else◌, none, not, some, ◌||◌, ℕ,
}
use noise.Base.Maps.{load, store, delete}
use noise.Client.{PeerClient, Proto}

abbrev pub u64_bound : ℕ
u64_bound = 2 ^ 64

-- What a reply does: it finds no request and goes on to the plugins, it is put into the channel,
-- it is dropped, or it waits for the request to end.
pub data Delivery (M J : Type 0) : Type 0 where
  unknown_request : Delivery M J
  delivered : PeerClient M J → Delivery M J
  dropped : Delivery M J
  waits : Delivery M J

module _ {M J : Type 0} where
  -- `atomic.AddUint64(&c.RequestNonce, 1)`, whose value is the new nonce.
  unfoldable pub next_request_nonce : PeerClient M J → PeerClient M J
  next_request_nonce c = record c { request_nonce = (c.request_nonce + 1) % u64_bound }

  -- The request is tracked.
  unfoldable pub track_request : PeerClient M J → ℕ → PeerClient M J
  unfolding store
  track_request c nonce = record c {
    requests = store nonce (record { reply = none; close_signal = false }) c.requests;
  }

  -- The deferred calls, the last first: the request is no longer tracked.
  unfoldable pub untrack_request : PeerClient M J → ℕ → PeerClient M J
  unfolding delete
  untrack_request c nonce = record c { requests = delete nonce c.requests }

  -- What is in the channel of a tracked request.
  unfoldable pub reply_of : PeerClient M J → ℕ → Option (Proto M)
  unfolding load
  reply_of c nonce = elim (load nonce c.requests) [ none ↦ none | some state ↦ state.reply ]

  -- Where both cases of the `select` are ready, `put` says which is taken.
  unfoldable pub deliver_reply : Bool → PeerClient M J → ℕ → Proto M → Delivery M J
  unfolding load store
  deliver_reply put c nonce msg = elim (load nonce c.requests) [
    | none ↦ unknown_request
    | some state ↦ elim state.reply [
      | none ↦
          if not state.close_signal || put
          then delivered
              (record c { requests = store nonce (record state { reply = some msg }) c.requests })
          else dropped
      | some first ↦ if state.close_signal then dropped else waits
    ]
  ]
