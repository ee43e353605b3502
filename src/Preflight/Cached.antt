-- ===== src/Preflight/Cached.antt =====
-- How old a balance or an allowance can be.
use polymarket_radar.Base.{
  ℕ, ◌+◌, ◌≤◌, ◌≡◌, ◌≢◌, ap, ◌∙◌, String, true, false, not, ◌&&◌, Option, none, some, if◌then◌else◌,
  ◌==◌, string_key, pair_key, arith, ◌⊎◌, inl, inr, ltb, Option-cases, Bool-cases,
}
use polymarket_radar.Base.Dict.{lookup, lookup-keep_keys}
use polymarket_radar.Preflight.{
  CacheKey, Cache, ttl_for_kind, cache_get, key_of, read_chain, invalidate_balance_cache,
}

-- A value that `_read_chain` gives is what the chain answers now, or was cached for the same key no
-- longer ago than 2 s for a balance and 600 s for an allowance.
pub read_chain_lem :
    (low : String → String) (now : ℕ) (address kind spender : String) (chain : Option ℕ)
    (cache : Cache) (v : ℕ)
    → (read_chain low now address kind spender chain cache).1 ≡ some v
    → (chain ≡ some v)
      ⊎ ((ts : ℕ) × (lookup (key_of low address kind spender) cache ≡ some (v, ts))
          × (now ≤ ts + (if kind == "balance" then 2000 else 600000)))
unfolding read_chain cache_get ttl_for_kind
read_chain_lem low now address kind spender chain cache v e =
    elim (Option-cases (lookup (key_of low address kind spender) cache)) [
      | inl f ↦ inl (ground (arith, e, f))
      | inr (entry, f) ↦
          elim (Bool-cases (ltb (entry.1 + (if kind == "balance" then 2000 else 600000)) now)) [
            | inl late ↦ inl (ground (arith, e, f, late))
            | inr fresh ↦
                let same : entry.0 ≡ v = ground (arith, e, f, fresh) in
                inr (entry.1, f ∙ ap (λ x. some (x, entry.1)) same, ground (arith, fresh))
          ]
    ]

read_absent :
    (low : String → String) (now : ℕ) (address kind spender : String) (chain : Option ℕ)
    (cache : Cache)
    → lookup (key_of low address kind spender) cache ≡ none
    → (read_chain low now address kind spender chain cache).1 ≡ chain
unfolding read_chain cache_get
read_absent low now address kind spender chain cache e = ground (arith, e)

-- After `invalidate_balance_cache` for an address, however it is spelled, the next read of its balance
-- is what the chain answers.
pub invalidate-read_chain :
    (low : String → String) (now : ℕ) (address spelled spender : String) (chain : Option ℕ)
    (cache : Cache)
    → spelled ≢ ""
    → low address ≡ low spelled
    → (read_chain low now address "balance" spender chain
        (invalidate_balance_cache low (some spelled) cache)).1
      ≡ chain
unfolding read_chain cache_get invalidate_balance_cache
invalidate-read_chain low now address spelled spender chain cache n same =
    let gone =
      lookup-keep_keys (λ (k : CacheKey). not (k.0 == low spelled && k.1.0 == "balance"))
        (key_of low address "balance" spender) cache in
    let named : (spelled == "") ≡ false = ground (arith, n, string_key.same_iff spelled "") in
    let mine : (low address == low spelled) ≡ true = (string_key.same_iff _ _).1 same in
    let dropped : lookup (key_of low address "balance" spender)
          (invalidate_balance_cache low (some spelled) cache)
        ≡ none =
      rw named (ground (arith, gone, mine)) in
    read_absent low now address "balance" spender chain
      (invalidate_balance_cache low (some spelled) cache) dropped
