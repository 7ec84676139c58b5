-- ===== src/Session/Accepting.antt =====
-- What an accepted voucher has passed, and what a refused one leaves: `handle_voucher`, run alone.
use mpp_rs.Prelude.{
  ℕ, ◌-◌, ◌≤◌, ◌<◌, ◌≡◌, refl, sym, ap, ◌∙◌, inl, inr, Bool, true, false, not, ◌&&◌, some, ltb, leb,
  ◌==◌, ==_iff, Bool-cases, if◌then◌else◌, arith,
}
use mpp_rs.Error.{Result, ok, err, VerificationError, delta_too_small, channel_not_found}
use mpp_rs.Voucher.{Address, B256, Bytes, verify_voucher}
use mpp_rs.Session.Types.{ChannelState, Receipt, method_name}
use mpp_rs.Session.Updates.{accept_update}
use mpp_rs.Session.Task.{ret, fail, ◌>>=◌, some_or_fail, update_channel}
use mpp_rs.Session.Store.{Channels, World, insert, run}
use mpp_rs.Session.Externs.{Externs}
use mpp_rs.Session.Method.{
  Terms, same_signature, parse_channel_id, parse_signature, check_stale_voucher,
  accept_higher_voucher, voucher_is_valid, verify_and_accept_voucher,
}
use mpp_rs.Session.Run.{run-lift, run-fail_if, run-part, run-fail_if_last, known-update, known-some}

pub is_on : (b : Bool) → not b ≡ false → b ≡ true
is_on b h = ground arith

not_ltb : (a b : ℕ) → ltb a b ≡ false → b ≤ a
not_ltb a b h = ground arith

not_leb : (a b : ℕ) → leb a b ≡ false → b < a
not_leb a b h = ground arith

ltb_of_lt : (a b : ℕ) → a < b → ltb a b ≡ true
ltb_of_lt a b h = ground arith

abbrev pub with_voucher : ℕ → Bytes → ChannelState → ChannelState
with_voucher amount sig c = record c {
  highest_voucher_amount = amount;
  highest_voucher_signature = some sig;
}

module _ (x : Externs) where
  -- The voucher of `t` on the channel `c` passes every check, with these values read from its texts.
  pub record IsAcceptable (t : Terms) (c : ChannelState) (deposit settled : ℕ) (finalized : Bool)
      (close_at : ℕ) (id : B256) (sig : Bytes) : Type 0 where
    pub live : (finalized ≡ false) × (close_at ≡ 0)
    pub bounds : (settled ≤ t.cumulative_amount) × (t.cumulative_amount ≤ deposit)
    pub fresh : c.highest_voucher_amount < t.cumulative_amount
    pub delta : t.min_delta ≤ t.cumulative_amount - c.highest_voucher_amount
    pub parsed : parse_channel_id x t.channel_id_str ≡ ok id
    pub sig_parsed : parse_signature x t.signature_str ≡ ok sig
    pub verified :
        verify_voucher x.recover t.escrow t.chain_id id t.cumulative_amount sig c.authorized_signer
        ≡ true

module _ (x : Externs) (w : World) (s : Channels) where
  voucher_is_valid-same :
      (t : Terms) (sig : Bytes) (signer : Address)
      → (run w (voucher_is_valid x t sig signer) s).1 ≡ s
  unfolding voucher_is_valid
  voucher_is_valid-same t sig signer =
      run-lift w (λ r. r.1 ≡ s) (parse_channel_id x t.channel_id_str) _ s (λ e _. refl)
        (λ id _. run-fail_if_last w _ _ s)

module _ (x : Externs) (w : World) (Q : Result Receipt × Channels → Type 0) (s : Channels) where
  valid_then_fail :
      (t : Terms) (sig : Bytes) (signer : Address) (e : VerificationError)
      → ((e : VerificationError) → Q (err e, s))
      → Q (run w (voucher_is_valid x t sig signer >>= λ _. fail e) s)
  unfolding run
  valid_then_fail t sig signer e bad =
      run-part w Q (voucher_is_valid x t sig signer) _ s (λ e' u h. rw (same u h) (bad e'))
        (λ a u h. rw (same u h) (bad e))
    where
      same :
          {r : Result (Unit {0})} (u : Channels)
          → run w (voucher_is_valid x t sig signer) s ≡ (r, u)
          → u ≡ s
      same u h =
          sym (ap (λ (p : Result (Unit {0}) × Channels). p.1) h)
          ∙ voucher_is_valid-same x w s t sig signer

  ret_then_fail :
      (e : VerificationError)
      → ((e : VerificationError) → Q (err e, s))
      → Q (run w (ret tt >>= λ _. fail e) s)
  unfolding ◌>>=◌ run
  ret_then_fail e bad = bad e

  -- A stale voucher always ends in an error, and changes nothing.
  stale_end :
      (t : Terms) (c : ChannelState)
      → ((e : VerificationError) → Q (err e, s))
      → Q (run w (check_stale_voucher x t c) s)
  unfolding check_stale_voucher
  stale_end t c bad =
      run-lift w Q (parse_signature x t.signature_str) _ s (λ e _. bad e)
        λ sig _. by_replay sig (
          same_signature c.highest_voucher_signature sig
          && t.cumulative_amount == c.highest_voucher_amount)
    where
      by_replay :
          (sig : Bytes) (replay : Bool)
          → Q (
              run w
                ((if replay then ret tt else voucher_is_valid x t sig c.authorized_signer) >>= λ _.
                  fail delta_too_small)
                s)
      by_replay sig true = ret_then_fail delta_too_small bad
      by_replay sig false = valid_then_fail t sig c.authorized_signer delta_too_small bad

  taken :
      (t : Terms) (c : ChannelState) (sig : Bytes)
      → s t.channel_id_str ≡ some c
      → c.highest_voucher_amount < t.cumulative_amount
      → accept_update t.cumulative_amount sig (s t.channel_id_str)
        ≡ ok (some (with_voucher t.cumulative_amount sig c))
  unfolding accept_update
  taken t c sig stored fresh = rw (stored, ltb_of_lt _ _ fresh)

  ret_end : {r : Receipt} {t : Channels} → Q (ok r, t) → Q (run w (ret r) t)
  unfolding run
  ret_end h = h

  accepted_end :
      (t : Terms) (c : ChannelState) (sig : Bytes)
      → s t.channel_id_str ≡ some c
      → c.highest_voucher_amount < t.cumulative_amount
      → Q (
        ok (record { method = method_name; reference = c.channel_id }),
        insert t.channel_id_str (with_voucher t.cumulative_amount sig c) s,
      )
      → Q (
          run w
            (update_channel t.channel_id_str (accept_update t.cumulative_amount sig) >>= λ updated.
              some_or_fail updated channel_not_found >>= λ state.
              ret (record { method = method_name; reference = state.channel_id }))
            s)
  accepted_end t c sig stored fresh h =
      known-update w Q _ _ _ s (taken t c sig stored fresh) (known-some w Q _ _ _ refl (ret_end h))

  higher_end :
      (t : Terms) (c : ChannelState) (deposit settled : ℕ) (finalized : Bool) (close_at : ℕ)
      → s t.channel_id_str ≡ some c
      → ((e : VerificationError) → Q (err e, s))
      → ((id : B256) (sig : Bytes)
          → IsAcceptable x t c deposit settled finalized close_at id sig
          → Q (
            ok (record { method = method_name; reference = c.channel_id }),
            insert t.channel_id_str (with_voucher t.cumulative_amount sig c) s,
          ))
      → finalized ≡ false
      → not (close_at == 0) ≡ false
      → ltb t.cumulative_amount settled ≡ false
      → ltb deposit t.cumulative_amount ≡ false
      → c.highest_voucher_amount < t.cumulative_amount
      → Q (run w (accept_higher_voucher x t c) s)
  unfolding accept_higher_voucher
  higher_end t c deposit settled finalized close_at stored bad good live unrequested above below
        fresh =
      run-fail_if w Q _ _ _ s (λ _. bad _)
        λ delta.
          run-lift w Q _ _ s (λ e _. bad e)
            λ id parsed.
              run-lift w Q _ _ s (λ e _. bad e)
                λ sig sig_parsed.
                  run-fail_if w Q _ _ _ s (λ _. bad _)
                    λ verified. accepted_end t c sig stored fresh (
                      good id sig (record {
                        live = (live, (==_iff _ _).0 (is_on _ unrequested));
                        bounds = (not_ltb _ _ above, not_ltb _ _ below);
                        fresh = fresh;
                        delta = not_ltb _ _ delta;
                        parsed = parsed;
                        sig_parsed = sig_parsed;
                        verified = is_on _ verified;
                      }))

  -- `verify_and_accept_voucher` on a stored channel: an error with nothing changed, or every check
  -- passed and the new voucher in the store.
  pub accept_end :
      (t : Terms) (c : ChannelState) (deposit settled : ℕ) (finalized : Bool) (close_at : ℕ)
      → s t.channel_id_str ≡ some c
      → ((e : VerificationError) → Q (err e, s))
      → ((id : B256) (sig : Bytes)
          → IsAcceptable x t c deposit settled finalized close_at id sig
          → Q (
            ok (record { method = method_name; reference = c.channel_id }),
            insert t.channel_id_str (with_voucher t.cumulative_amount sig c) s,
          ))
      → Q (run w (verify_and_accept_voucher x t c deposit settled finalized close_at) s)
  unfolding verify_and_accept_voucher
  accept_end t c deposit settled finalized close_at stored bad good =
      run-fail_if w Q _ _ _ s (λ _. bad _)
        λ live.
          run-fail_if w Q _ _ _ s (λ _. bad _)
            λ unrequested.
              run-fail_if w Q _ _ _ s (λ _. bad _)
                λ above.
                  run-fail_if w Q _ _ _ s (λ _. bad _)
                    λ below. elim (Bool-cases (leb t.cumulative_amount c.highest_voucher_amount)) [
                      | inl stale ↦ rw stale (stale_end t c bad)
                      | inr fresh ↦ rw fresh (
                          higher_end t c deposit settled finalized close_at stored bad good live
                            unrequested above below (not_leb _ _ fresh))
                    ]
