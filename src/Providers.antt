-- ===== src/Providers.antt =====
-- zp-relayer/lib/providers/HttpListProvider.ts: requests to a list of URLs, the first of which is the
-- primary one. A request is the answer that each URL gives to it.
pub mod Answers
use zeropool_relayer.Base.{
  ℕ, zero, suc, ◌+◌, ◌*◌, ◌%◌, Bool, true, false, not, ◌&&◌, Option, none, some, Outcome, ok,
  throws, error, ltb, ◌==◌, if◌then◌else◌,
}

-- The mutable fields.
pub record HttpListProvider : Type 0 where
  pub current_index : ℕ
  pub last_time_used_primary : ℕ
  pub latest_block : ℕ

-- `FALLBACK_RPC_URL_SWITCH_TIMEOUT`, an hour
abbrev pub fallback_rpc_url_switch_timeout : ℕ
fallback_rpc_url_switch_timeout = 60 * 60 * 1000

-- The answer to `eth_blockNumber`: the number, or none for a result that holds an error.
abbrev pub BlockAnswer : Type 0
BlockAnswer = Option ℕ

module _ (urls : ℕ) where
  -- The index of `updateUrlIndex`: an absent one and 0 are the one after the current.
  abbrev pub next_index : ℕ → Option ℕ → ℕ
  next_index prev_index none = (prev_index + 1) % urls
  next_index prev_index (some zero) = (prev_index + 1) % urls
  next_index prev_index (some (suc i)) = suc i

  -- `updateUrlIndex`
  unfoldable pub update_url_index : Option ℕ → HttpListProvider → HttpListProvider
  update_url_index index p =
      if p.current_index == next_index p.current_index index
      then p
      else record p { current_index = next_index p.current_index index }

  -- the switch back at the start of `send`; the difference of the times is written as a sum
  unfoldable pub switch_back : ℕ → HttpListProvider → HttpListProvider
  unfolding update_url_index
  switch_back now p =
      if ltb 0 p.current_index
        && ltb (p.last_time_used_primary + fallback_rpc_url_switch_timeout) now
      then update_url_index (some 0) p
      else p

  -- whether a request to the URL marks the time of the primary one
  abbrev pub mark : ℕ → ℕ → HttpListProvider → HttpListProvider
  mark now index p = if index == 0 then record p { last_time_used_primary = now } else p

  module _ {A : Type 0} where
    -- The loop of `trySend` for `left` URLs from the `count`-th on.
    unfoldable pub try_from :
        ℕ → (ℕ → Outcome A) → ℕ → ℕ → ℕ → HttpListProvider → HttpListProvider × Outcome (A × ℕ)
    try_from now answer initial_index zero count p =
        (p, throws (error "Request failed for all urls"))
    try_from now answer initial_index (suc left) count p =
        elim (answer ((initial_index + count) % urls)) [
          | ok result ↦ (
            mark now ((initial_index + count) % urls) p,
            ok (result, (initial_index + count) % urls),
          )
          | throws e ↦
              try_from now answer initial_index left (suc count)
                (mark now ((initial_index + count) % urls) p)
        ]

    -- `trySend`
    unfoldable pub try_send :
        ℕ → (ℕ → Outcome A) → ℕ → HttpListProvider → HttpListProvider × Outcome (A × ℕ)
    unfolding try_from
    try_send now answer initial_index p = try_from now answer initial_index urls 0 p

    -- `promiseRetry`: one attempt, and `retries` more; the n-th attempt meets the answers `answers n`
    unfoldable pub retry_send :
        ℕ → (ℕ → ℕ → Outcome A) → ℕ → ℕ → ℕ → HttpListProvider → HttpListProvider × Outcome (A × ℕ)
    unfolding try_send
    retry_send now answers initial_index zero attempt p =
        try_send now (answers attempt) initial_index p
    retry_send now answers initial_index (suc retries) attempt p =
        let (q, r) = try_send now (answers attempt) initial_index p in
        elim r [
          | ok a ↦ (q, ok a)
          | throws e ↦ retry_send now answers initial_index retries (suc attempt) q
        ]

    -- `send`
    unfoldable pub send :
        ℕ → ℕ → (ℕ → ℕ → Outcome A) → HttpListProvider → HttpListProvider × Outcome A
    unfolding switch_back retry_send update_url_index
    send now retries answers p =
        let start = switch_back now p in
        let (q, r) = retry_send now answers start.current_index retries 0 start in
        elim r [
          | throws e ↦ (q, throws e)
          | ok (a, index) ↦ (
            if not (start.current_index == index) then update_url_index (some index) q else q,
            ok a,
          )
        ]

  -- `checkLatestBlock`
  unfoldable pub check_latest_block :
      ℕ → ℕ → (ℕ → ℕ → Outcome BlockAnswer) → HttpListProvider → HttpListProvider
  unfolding send update_url_index
  check_latest_block now retries answers p =
      let (q, r) = send now retries answers p in
      elim r [
        | throws e ↦ q
        | ok found ↦ elim found [
          | none ↦ update_url_index none q
          | some block_number ↦
              if ltb q.latest_block block_number
              then record q { latest_block = block_number }
              else update_url_index none q
        ]
      ]
