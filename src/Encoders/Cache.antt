-- ===== src/Encoders/Cache.antt =====
-- What the encoding cache of node/encoding_cache.go promises to the sessions that share a message.
use anycable_go.Base.{◌≡◌, refl, String, true, false, Option, none, some, arith, ◌≢◌}
use anycable_go.Base.{◌=s=◌, =s=_refl}
use anycable_go.Base.GoMap.{lookup, has, lookup-insert}
use anycable_go.Base.Outcome.{Outcome, ok, err, panic}
use anycable_go.Encoders.{
  SentFrame, EncodingCache, EncodingFunction, CachedEncodedMessage, read_cached, store_and_read,
  cached_fetch,
}

-- What a session is told of its encoder's answer.
abbrev pub delivered : Outcome (Option SentFrame) → Outcome SentFrame
delivered (ok (some b)) = ok b
delivered (ok none) = err "Encoding failed"
delivered (err _) = err "Encoding failed"
delivered panic = panic

store_and_read_lem :
    (cache : EncodingCache) (id : String) (r : Outcome (Option SentFrame))
    → (store_and_read cache id r).1 ≡ delivered r
unfolding store_and_read
store_and_read_lem cache id (ok none) = ground (arith, lookup-insert id id none cache, =s=_refl id)
store_and_read_lem cache id (ok (some b)) =
    ground (arith, lookup-insert id id (some b) cache, =s=_refl id)
store_and_read_lem cache id (err _) = ground (arith, lookup-insert id id none cache, =s=_refl id)
store_and_read_lem cache id panic = refl

store_and_read_keeps :
    (cache : EncodingCache) (id : String) (r : Outcome (Option SentFrame))
    → (store_and_read cache id r).1 ≢ panic
    → (has id (store_and_read cache id r).0 ≡ true)
      × (read_cached (lookup id (store_and_read cache id r).0) ≡ (store_and_read cache id r).1)
unfolding store_and_read
store_and_read_keeps cache id (ok b) calm = ground (arith, lookup-insert id id b cache, =s=_refl id)
store_and_read_keeps cache id (err _) calm =
    ground (arith, lookup-insert id id none cache, =s=_refl id)
store_and_read_keeps cache id panic calm = absurd (calm refl)

store_and_read_other :
    (cache : EncodingCache) (id other : String) (r : Outcome (Option SentFrame))
    → (id =s= other) ≡ false
    → lookup other (store_and_read cache id r).0 ≡ lookup other cache
unfolding store_and_read
store_and_read_other cache id other (ok b) ne = ground (arith, lookup-insert id other b cache)
store_and_read_other cache id other (err _) ne = ground (arith, lookup-insert id other none cache)
store_and_read_other cache id other panic ne = refl

-- The first fetch for an encoder gives what the encoder answers, with every failure told in the
-- same words. After it, unless the encoder panicked, every further fetch under that encoder's
-- name gives the same answer, calls no encoder and leaves the message as it is.
pub cached_fetch-once :
    (msg : CachedEncodedMessage) (id : String) (first later : EncodingFunction)
    → has id msg.cache ≡ false
    → (cached_fetch msg id first).1 ≢ panic
    → ((cached_fetch msg id first).1 ≡ delivered (first msg.target))
      × (cached_fetch (cached_fetch msg id first).0 id later
          ≡ ((cached_fetch msg id first).0, (cached_fetch msg id first).1))
unfolding cached_fetch
cached_fetch-once msg id first later fresh calm = ground (
  arith,
  store_and_read_lem msg.cache id (first msg.target),
  store_and_read_keeps msg.cache id (first msg.target),
)

-- An encoder's entry does not touch what other encoders have stored.
pub cached_fetch_other :
    (msg : CachedEncodedMessage) (id other : String) (callback : EncodingFunction)
    → (id =s= other) ≡ false
    → lookup other (cached_fetch msg id callback).0.cache ≡ lookup other msg.cache
unfolding cached_fetch
cached_fetch_other msg id other callback ne =
    ground (arith, store_and_read_other msg.cache id other (callback msg.target))
