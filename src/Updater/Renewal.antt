-- ===== src/Updater/Renewal.antt =====
-- The offer of a renewal, made by one party and received by the other.
use mathlib.Core.Path.{subst}
use rust_dlc.Base.{
  ℕ, ◌≡◌, refl, sym, true, false, ◌==◌, inr, Outcome, ok, ◌>>=◌, List, [], ◌+◌, Bool, Option, some,
  length, ◌%◌, ◌^◌,
}
use rust_dlc.Dlc.Types.{add64, sub64}
use rust_dlc.Updater.Types.{Error, renew_offered, Context, SignedChannel}
use rust_dlc.Updater.Services.{Services}
use rust_dlc.Updater.States.{commitment_secret}
use rust_dlc.Updater.Offer.{
  Conversions, ContractInput, OracleAnnouncement, ContractInfo, RenewOffer, OfferedContract,
  contract_infos_of, check_renewable, expect_renewable, get_latest_maturity_date,
  offered_contract_new, renew_offer, on_renew_offer,
}
use rust_dlc.Updater.Channels.{signed_channel, get_contract_id}
use rust_dlc.Updater.Parties.{Party, services_of, mirror, Paired, returned}

module _ (conversions : Conversions) where
  open conversions use {
    to_contract_info, get_contract_info_and_announcements, generate_temporary_contract_id,
  }

  -- The contract that a party offers in a renewal.
  abbrev pub renewed_contract :
      ContractInput
      → List (List OracleAnnouncement)
      → (delay maturity now : ℕ) → SignedChannel
      → OfferedContract
  renewed_contract input announcements delay maturity now c = record {
    id = generate_temporary_contract_id c.channel_id c.update_idx;
    is_offer_party = true;
    contract_info = contract_infos_of input.contract_infos announcements;
    counter_party = c.counter_party;
    offer_params = c.own_params;
    total_collateral = add64 input.offer_collateral input.accept_collateral;
    funding_inputs_info = [];
    fund_output_serial_id = 0;
    fee_rate_per_vb = c.fee_rate_per_vb;
    cet_locktime = now % 2 ^ 32;
    refund_locktime = (maturity + delay) % 2 ^ 32;
  }

  abbrev after_renew : Context → (id payout point : ℕ) → Bool → ℕ → Option ℕ → Context
  after_renew s id payout point is_offer timeout reference_id = record s {
    channel = record s.channel {
      state = renew_offered id payout point is_offer timeout;
      roll_back_state = some s.channel.state;
      reference_id = reference_id;
    };
  }

  abbrev offer_of : OfferedContract → Context → (payout point nsequence : ℕ) → Option ℕ → RenewOffer
  offer_of contract s payout point nsequence reference_id = record {
    channel_id = s.channel.channel_id;
    counter_payout = payout;
    next_per_update_point = point;
    contract_info = to_contract_info contract;
    cet_locktime = contract.cet_locktime;
    refund_locktime = contract.refund_locktime;
    cet_nsequence = nsequence;
    reference_id = reference_id;
  }

  renew_offer_lem :
      (services : Services) (input : ContractInput) (announcements : List (List OracleAnnouncement))
      (payout delay timeout nsequence : ℕ) (reference_id : Option ℕ) (s : Context)
      {seed secret maturity : ℕ}
      → check_renewable conversions s.channel.state input ≡ ok tt
      → (length input.contract_infos == length announcements) ≡ true
      → get_latest_maturity_date announcements ≡ some maturity
      → services.get_secret_key_for_pubkey s.channel.own_per_update_seed ≡ inr seed
      → commitment_secret services seed (sub64 s.channel.update_idx 1) ≡ some secret
      → let contract =
          renewed_contract input announcements delay maturity services.unix_time_now s.channel in
        renew_offer conversions services input announcements payout delay timeout nsequence
          reference_id s
        ≡ (
          ok (
            offer_of contract s payout (services.public_key secret) nsequence reference_id,
            contract,
          ),
          after_renew s contract.id payout
              (services.public_key secret)
              true
              (add64 services.unix_time_now timeout)
              reference_id,
        )
  unfolding renew_offer offered_contract_new
  renew_offer_lem services input announcements payout delay timeout nsequence reference_id s e f g k
        l =
      rw e (rw f (rw g (rw k (rw l refl))))

  on_renew_offer_lem :
      (services : Services) (offer : RenewOffer) (timeout : ℕ) (s : Context)
      {infos : List ContractInfo} {total : ℕ}
      → expect_renewable conversions s.channel.state ≡ ok tt
      → get_contract_info_and_announcements offer.contract_info ≡ inr infos
      → add64 s.channel.own_params.collateral s.channel.counter_params.collateral ≡ total
      → let id = generate_temporary_contract_id s.channel.channel_id s.channel.update_idx in
        on_renew_offer conversions services offer timeout s ≡ (
          ok (record {
            id = id;
            is_offer_party = false;
            contract_info = infos;
            counter_party = s.channel.counter_party;
            offer_params = s.channel.counter_params;
            total_collateral = total;
            funding_inputs_info = [];
            fund_output_serial_id = 0;
            fee_rate_per_vb = s.channel.fee_rate_per_vb;
            cet_locktime = offer.cet_locktime;
            refund_locktime = offer.refund_locktime;
          }),
          after_renew s id offer.counter_payout offer.next_per_update_point false
              (add64 services.unix_time_now timeout)
              offer.reference_id,
        )
  unfolding on_renew_offer
  on_renew_offer_lem services offer timeout s e f g = rw e (rw f (rw g refl))

module _ (conversions : Conversions) (crypto : Services) (pa pb : Party) where
  -- A renew offer, received by the other party: the contract of each, and the channels.
  unfoldable pub renew_offer_round :
      ContractInput
      → List (List OracleAnnouncement)
      → (payout delay timeout nsequence : ℕ) → Option ℕ
      → Context
      → Context
      → Outcome Error (OfferedContract × OfferedContract × Context × Context)
  renew_offer_round input announcements payout delay timeout nsequence reference_id a b = do
    ((offer, contract_a), a) ← returned (
        renew_offer conversions (services_of crypto pa) input announcements payout delay timeout
          nsequence reference_id a)
    (contract_b, b) ← returned (on_renew_offer conversions (services_of crypto pb) offer timeout b)
    ok (contract_a, contract_b, a, b)

  renew_mirrored :
      (a b : Context) (input : ContractInput) (announcements : List (List OracleAnnouncement))
      (payout delay timeout nsequence : ℕ) (reference_id : Option ℕ) (seed secret maturity : ℕ)
      → let contract =
          renewed_contract conversions input announcements delay maturity pa.time a.channel in
        check_renewable conversions a.channel.state input ≡ ok tt
        → expect_renewable conversions b.channel.state ≡ ok tt
        → (length input.contract_infos == length announcements) ≡ true
        → get_latest_maturity_date announcements ≡ some maturity
        → pa.signer a.channel.own_per_update_seed ≡ inr seed
        → commitment_secret crypto seed (sub64 a.channel.update_idx 1) ≡ some secret
        → add64 a.channel.counter_params.collateral a.channel.own_params.collateral
          ≡ add64 input.offer_collateral input.accept_collateral
        → conversions.get_contract_info_and_announcements (conversions.to_contract_info contract)
          ≡ inr contract.contract_info
        → (ta : Context) × (tb : Context) × (renew_offer_round input announcements payout delay
              timeout nsequence reference_id a
              (record b { channel = mirror a.channel b.channel })
            ≡ ok (
              contract,
              record contract { is_offer_party = false; counter_party = b.channel.counter_party },
              ta,
              tb,
            ))
          × Paired ta.channel tb.channel
          × (get_contract_id (signed_channel ta.channel) ≡ some contract.id)
          × (get_contract_id (signed_channel tb.channel) ≡ some contract.id)
  unfolding renew_offer_round get_contract_id
  renew_mirrored a b input announcements payout delay timeout nsequence reference_id seed secret
        maturity ea eb len latest ek es total law =
      let sa = services_of crypto pa in
      let sb = services_of crypto pb in
      let b0 = record b { channel = mirror a.channel b.channel } in
      let contract =
        renewed_contract conversions input announcements delay maturity pa.time a.channel in
      let point = crypto.public_key secret in
      let offer = offer_of conversions contract a payout point nsequence reference_id in
      (
        after_renew conversions a contract.id payout point true (add64 pa.time timeout)
            reference_id,
        after_renew conversions b0 contract.id payout point false (add64 pb.time timeout)
            reference_id,
        rw
            (renew_offer_lem conversions sa input announcements payout delay timeout nsequence
              reference_id a ea len latest ek es)
            (rw (on_renew_offer_lem conversions sb offer timeout b0 eb law total) refl),
        refl,
        refl,
        refl,
      )

  -- From two sides of one channel, of which the one is allowed to renew with the input and the other
  -- is established or settled, where there is an announcement for each contract, one at least, the
  -- collaterals of the input add up to those of the channel, and the contract is read from the
  -- message as it was written, a renew offer is made and received: both hold the same contract but
  -- for the role and the counter party, keep one channel again, and name the contract as that of
  -- their channel.
  pub renew_offer_round_lem :
      (a b : Context) (input : ContractInput) (announcements : List (List OracleAnnouncement))
      (payout delay timeout nsequence : ℕ) (reference_id : Option ℕ) (seed secret maturity : ℕ)
      → let contract =
          renewed_contract conversions input announcements delay maturity pa.time a.channel in
        Paired a.channel b.channel
        → check_renewable conversions a.channel.state input ≡ ok tt
        → expect_renewable conversions b.channel.state ≡ ok tt
        → (length input.contract_infos == length announcements) ≡ true
        → get_latest_maturity_date announcements ≡ some maturity
        → pa.signer a.channel.own_per_update_seed ≡ inr seed
        → commitment_secret crypto seed (sub64 a.channel.update_idx 1) ≡ some secret
        → add64 a.channel.counter_params.collateral a.channel.own_params.collateral
          ≡ add64 input.offer_collateral input.accept_collateral
        → conversions.get_contract_info_and_announcements (conversions.to_contract_info contract)
          ≡ inr contract.contract_info
        → (ta : Context) × (tb : Context) × (renew_offer_round input announcements payout delay
              timeout nsequence reference_id a b
            ≡ ok (
              contract,
              record contract { is_offer_party = false; counter_party = b.channel.counter_party },
              ta,
              tb,
            ))
          × Paired ta.channel tb.channel
          × (get_contract_id (signed_channel ta.channel) ≡ some contract.id)
          × (get_contract_id (signed_channel tb.channel) ≡ some contract.id)
  renew_offer_round_lem a b input announcements payout delay timeout nsequence reference_id seed
        secret maturity paired ea eb len latest ek es total law =
      let contract =
        renewed_contract conversions input announcements delay maturity pa.time a.channel in
      let (ta, tb, run, paired_after, id_a, id_b) =
        renew_mirrored a b input announcements payout delay timeout nsequence reference_id seed
          secret maturity ea eb len latest ek es total law in
      (
        ta,
        tb,
        subst
            (λ c.
              renew_offer_round input announcements payout delay timeout nsequence reference_id a
                (record b { channel = c })
              ≡ ok (
                contract,
                record contract { is_offer_party = false; counter_party = b.channel.counter_party },
                ta,
                tb,
              ))
            (sym paired) run,
        paired_after,
        id_a,
        id_b,
      )
