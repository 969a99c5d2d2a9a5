-- ===== src/Updater/Offer.antt =====
-- dlc-manager/src/channel_updater.rs: the offer to renew the contract of a channel, and the
-- offered contract of dlc-manager/src/contract. A contract descriptor, and what else an announcement
-- says, is a number, as the bytes it stands for.
use rust_dlc.Base.{
  ℕ, ◌+◌, ◌%◌, ◌^◌, Bool, true, false, ◌==◌, ◌&&◌, max, ◌⊎◌, Outcome, ok, err, require, assert,
  unwrap, List, [], ◌∷◌, ◌++◌, length, Option, none, some,
}
use rust_dlc.Dlc.Types.{PartyParams, add64, sub64}
use rust_dlc.Updater.Types.{
  Error, invalid_parameters, invalid_state, SignedChannelState, established, settled, renew_offered,
}
use rust_dlc.Updater.Exec.{Exec, ◌>>=◌, ◌>>◌, lift, get_channel, put_channel}
use rust_dlc.Updater.Services.{Services, from_result}
use rust_dlc.Updater.States.{signer_key, commitment_secret}

pub record OracleInput : Type 0 where
  pub public_keys : List ℕ
  pub event_id : ℕ
  pub threshold : ℕ

pub record ContractInputInfo : Type 0 where
  pub contract_descriptor : ℕ
  pub oracles : OracleInput

pub record ContractInput : Type 0 where
  pub offer_collateral : ℕ
  pub accept_collateral : ℕ
  pub fee_rate : ℕ
  pub contract_infos : List ContractInputInfo

pub record OracleAnnouncement : Type 0 where
  pub event_maturity_epoch : ℕ
  pub content : ℕ

pub record ContractInfo : Type 0 where
  pub contract_descriptor : ℕ
  pub oracle_announcements : List OracleAnnouncement
  pub threshold : ℕ

pub record OfferedContract : Type 0 where
  pub id : ℕ
  pub is_offer_party : Bool
  pub contract_info : List ContractInfo
  pub counter_party : ℕ
  pub offer_params : PartyParams
  pub total_collateral : ℕ
  pub funding_inputs_info : List ℕ
  pub fund_output_serial_id : ℕ
  pub fee_rate_per_vb : ℕ
  pub cet_locktime : ℕ
  pub refund_locktime : ℕ

pub record RenewOffer : Type 0 where
  pub channel_id : ℕ
  pub counter_payout : ℕ
  pub next_per_update_point : ℕ
  pub contract_info : ℕ
  pub cet_locktime : ℕ
  pub refund_locktime : ℕ
  pub cet_nsequence : ℕ
  pub reference_id : Option ℕ

-- The conversion of a contract to a message and back, of dlc-manager/src/conversion_utils.rs; the
-- hash that is a temporary contract's id; and a random serial id.
pub record Conversions : Type 0 where
  pub to_contract_info : OfferedContract → ℕ
  pub get_contract_info_and_announcements : ℕ → Error ⊎ List ContractInfo
  pub generate_temporary_contract_id : (channel_id channel_update_idx : ℕ) → ℕ
  pub get_new_serial_id : ℕ

-- The greatest maturity of some announcements, if there are any.
abbrev pub latest_of : List OracleAnnouncement → Option ℕ → Option ℕ
latest_of [] latest = latest
latest_of (x ∷ xs) none = latest_of xs (some x.event_maturity_epoch)
latest_of (x ∷ xs) (some m) = latest_of xs (some (max m x.event_maturity_epoch))

abbrev pub flatten : List (List OracleAnnouncement) → List OracleAnnouncement
flatten [] = []
flatten (xs ∷ xss) = xs ++ flatten xss

unfoldable pub get_latest_maturity_date : List (List OracleAnnouncement) → Option ℕ
get_latest_maturity_date announcements = latest_of (flatten announcements) none

-- `zip` and `map`
abbrev pub contract_infos_of :
    List ContractInputInfo → List (List OracleAnnouncement) → List ContractInfo
contract_infos_of [] _ = []
contract_infos_of (x ∷ xs) [] = []
contract_infos_of (x ∷ xs) (y ∷ ys) =
    record {
      contract_descriptor = x.contract_descriptor;
      oracle_announcements = y;
      threshold = x.oracles.threshold;
    }
    ∷ contract_infos_of xs ys

module _ (conversions : Conversions) where
  open conversions use {
    to_contract_info, get_contract_info_and_announcements, generate_temporary_contract_id,
    get_new_serial_id,
  }

  -- `OfferedContract::new`
  unfoldable pub offered_contract_new :
      ContractInput
      → List (List OracleAnnouncement)
      → PartyParams
      → List ℕ
      → ℕ
      → ℕ
      → ℕ
      → ℕ
      → Exec OfferedContract
  unfolding get_latest_maturity_date
  offered_contract_new contract oracle_announcements offer_params funding_inputs_info counter_party
        refund_delay cet_locktime temporary_contract_id =
      do
        lift (assert (length contract.contract_infos == length oracle_announcements))
        latest_maturity ← lift (unwrap (get_latest_maturity_date oracle_announcements))
        lift (
            ok (record {
              id = temporary_contract_id;
              is_offer_party = true;
              contract_info = contract_infos_of contract.contract_infos oracle_announcements;
              counter_party = counter_party;
              offer_params = offer_params;
              total_collateral = add64 contract.offer_collateral contract.accept_collateral;
              funding_inputs_info = funding_inputs_info;
              fund_output_serial_id = get_new_serial_id;
              fee_rate_per_vb = contract.fee_rate;
              cet_locktime = cet_locktime;
              refund_locktime = (latest_maturity + refund_delay) % 2 ^ 32;
            }))

  -- The validity checks: the collaterals of the contract are those that the channel holds.
  abbrev pub check_renewable : SignedChannelState → ContractInput → Outcome Error (Unit {0})
  check_renewable (established _ _ _ _ _ total_collateral) contract_input =
      require
        (total_collateral == add64 contract_input.accept_collateral contract_input.offer_collateral)
        invalid_parameters
  check_renewable (settled _ _ _ own_payout counter_payout) contract_input =
      require
        (contract_input.offer_collateral == own_payout
          && contract_input.accept_collateral == counter_payout)
        invalid_parameters
  check_renewable _ contract_input = err invalid_state

  abbrev pub expect_renewable : SignedChannelState → Outcome Error (Unit {0})
  expect_renewable (settled _ _ _ _ _) = ok tt
  expect_renewable (established _ _ _ _ _ _) = ok tt
  expect_renewable _ = err invalid_state

  module _ (services : Services) where
    open services use {public_key, unix_time_now}

    unfoldable pub renew_offer :
        ContractInput
        → List (List OracleAnnouncement)
        → ℕ
        → ℕ
        → ℕ
        → ℕ
        → Option ℕ
        → Exec (RenewOffer × OfferedContract)
    unfolding offered_contract_new
    renew_offer contract_input oracle_announcements counter_payout refund_delay peer_timeout
          cet_nsequence reference_id =
        do
          channel ← get_channel
          lift (check_renewable channel.state contract_input)
          new_contract ←
              offered_contract_new contract_input oracle_announcements channel.own_params []
                channel.counter_party refund_delay (unix_time_now % 2 ^ 32)
                (generate_temporary_contract_id channel.channel_id channel.update_idx)
          let offered_contract = record new_contract {
            fund_output_serial_id = 0;
            fee_rate_per_vb = channel.fee_rate_per_vb;
          }
          per_update_seed ← lift (signer_key services channel.own_per_update_seed)
          per_update_secret ←
              lift
                (unwrap (commitment_secret services per_update_seed (sub64 channel.update_idx 1)))
          let next_per_update_point = public_key per_update_secret
          put_channel (record channel {
            state =
                renew_offered offered_contract.id counter_payout next_per_update_point true
                  (add64 unix_time_now peer_timeout);
            roll_back_state = some channel.state;
            reference_id = reference_id;
          })
          let msg : RenewOffer = record {
            channel_id = channel.channel_id;
            counter_payout = counter_payout;
            next_per_update_point = next_per_update_point;
            contract_info = to_contract_info offered_contract;
            cet_locktime = offered_contract.cet_locktime;
            refund_locktime = offered_contract.refund_locktime;
            cet_nsequence = cet_nsequence;
            reference_id = reference_id;
          }
          lift (ok (msg, offered_contract))

    unfoldable pub on_renew_offer : RenewOffer → ℕ → Exec OfferedContract
    on_renew_offer offer peer_timeout = do
      channel ← get_channel
      lift (expect_renewable channel.state)
      let temporary_contract_id =
          generate_temporary_contract_id channel.channel_id channel.update_idx
      contract_info ← lift (from_result (get_contract_info_and_announcements offer.contract_info))
      let offered_contract : OfferedContract = record {
        id = temporary_contract_id;
        is_offer_party = false;
        contract_info = contract_info;
        counter_party = channel.counter_party;
        offer_params = channel.counter_params;
        total_collateral = add64 channel.own_params.collateral channel.counter_params.collateral;
        funding_inputs_info = [];
        fund_output_serial_id = 0;
        fee_rate_per_vb = channel.fee_rate_per_vb;
        cet_locktime = offer.cet_locktime;
        refund_locktime = offer.refund_locktime;
      }
      put_channel (record channel {
        state =
            renew_offered offered_contract.id offer.counter_payout offer.next_per_update_point false
              (add64 unix_time_now peer_timeout);
        roll_back_state = some channel.state;
        reference_id = offer.reference_id;
      })
      lift (ok offered_contract)
