-- ===== src/Dlc/Cet/Whole.antt =====
-- When the transactions of a contract are created, and what happens when the fund output is dust.
use mathlib.Core.Path.{subst}
use mathlib.Core.Bool.{true≢false}
use rust_dlc.Base.{
  ℕ, ◌+◌, ◌<◌, ◌≤◌, ◌≡◌, refl, ap, sym, ◌∙◌, Bool, true, false, ok, panic, >>=-eq-ok, unwrap, leb,
  ==_iff, if◌then◌else◌, List, [], ◌∷◌, Option, none, some, Bool-cases, inl, inr, IsSafe,
  >>=-IsSafe, arith, All,
}
use rust_dlc.Dlc.Types.{
  Error, FeeConfig, Script, TxOut, Transaction, Payout, PartyParams, DlcTransactions, Bitcoin,
  dust_limit, IsU64,
}
use rust_dlc.Dlc.Fee.{discard_dust, script_eq, find_output, get_output_for_script_pubkey}
use rust_dlc.Dlc.Order.{order_by_serial_ids-All}
use rust_dlc.Dlc.Fund.{create_fund_transaction_with_fees}
use rust_dlc.Dlc.Fund.Safe.{ok-IsSafe}
use rust_dlc.Dlc.Fund.Split.{
  FundSplit, create_fund_transaction-FundSplit, create_fund_transaction-IsSafe,
}
use rust_dlc.Dlc.Cet.{create_cets_and_refund_tx, create_dlc_transactions}
use rust_dlc.Dlc.Cet.Payouts.{
  create_cets_and_refund_tx-IsSafe, ok-inj, Proper, PaysOut, create_cets_and_refund_tx-PaysOut,
}

-- An output that is large enough to be kept is not to the script.
abbrev Avoids : Script → TxOut → Type 0
Avoids s x = leb dust_limit x.value ≡ true → script_eq x.script_pubkey s ≡ false

find_output-none :
    (n : ℕ) (s : Script) (xs : List TxOut)
    → All (Avoids s) xs
    → find_output n (discard_dust xs dust_limit) s ≡ none
unfolding find_output discard_dust
find_output-none n s [] h = refl
find_output-none n s (x ∷ xs) h = elim (Bool-cases (leb dust_limit x.value)) [
  | inl e ↦ rw e (rw (h.0 e) (find_output-none (n + 1) s xs h.1))
  | inr e ↦ rw e (find_output-none n s xs h.1)
]

some-none : {A : Type 0} {a : A} → some a ≡ none → ⊥
some-none h = cc

none-Avoids :
    (n : ℕ) (s : Script) (xs : List TxOut)
    → find_output n (discard_dust xs dust_limit) s ≡ none
    → All (Avoids s) xs
unfolding find_output discard_dust
none-Avoids n s [] h = tt
none-Avoids n s (x ∷ xs) h =
    let kept : (b : Bool)
        → leb dust_limit x.value ≡ b
        → find_output n (if b then x ∷ discard_dust xs dust_limit else discard_dust xs dust_limit) s
          ≡ none =
      λ b e.
        subst
          (λ b.
            find_output n (if b then x ∷ discard_dust xs dust_limit else discard_dust xs dust_limit)
              s
            ≡ none)
          e h in
    elim (Bool-cases (leb dust_limit x.value)) [
      | inr e ↦ ((λ f. absurd (true≢false (sym f ∙ e))), none-Avoids n s xs (kept false e))
      | inl e ↦ elim (Bool-cases (script_eq x.script_pubkey s)) [
        | inr f ↦ (
          (λ _. f),
          none-Avoids (n + 1) s xs (
              subst
                (λ z.
                  (if z then some (n, x) else find_output (n + 1) (discard_dust xs dust_limit) s)
                  ≡ none)
                f (kept true e)),
        )
        | inl f ↦ absurd (
            some-none (
              subst
                (λ z.
                  (if z then some (n, x) else find_output (n + 1) (discard_dust xs dust_limit) s)
                  ≡ none)
                f (kept true e)))
      ]
    ]

script_eq_refl : (s : Script) → script_eq s s ≡ true
script_eq_refl [] = refl
script_eq_refl (x ∷ s) = rw ((==_iff x x).1 refl) (script_eq_refl s)

unwrap-IsSafe {ℓ} : {A : Type ℓ} (o : Option A) → ¬ (o ≡ none) → IsSafe {E = Error} (unwrap o)
unwrap-IsSafe none h = absurd (h refl)
unwrap-IsSafe (some a) h = λ e. cc

module _ (bitcoin : Bitcoin) where
  open bitcoin use {to_v0_p2wsh}

  -- The fund output is among the outputs when it is not dust.
  fund_output-found :
      {offer accept : PartyParams} {rate fid extra : ℕ} {config : FeeConfig} {script : Script}
      {tx : Transaction} (r : FundSplit bitcoin offer accept rate fid extra config script tx)
      → dust_limit ≤ r.value
      → ¬ (get_output_for_script_pubkey tx (to_v0_p2wsh script) ≡ none)
  unfolding get_output_for_script_pubkey
  fund_output-found {offer} {accept} {rate} {fid} {extra} {config} {script} {tx} r le none_found =
      let s = to_v0_p2wsh script in
      let gone = ap (λ z. find_output 0 z s) (sym r.outputs) ∙ none_found in
      let avoid =
        (order_by_serial_ids-All (Avoids s)
            (record { value = r.value; script_pubkey = s } ∷ r.o.0 ∷ r.a.0 ∷ [])
            (fid ∷ offer.change_serial_id ∷ accept.change_serial_id ∷ []) refl).0
          (none-Avoids 0 s _ gone) in
      true≢false (sym (script_eq_refl s) ∙ avoid.0 (ground arith))

  -- A fund output that is dust is dropped, and no other output is to its script.
  fund_output-lost :
      {offer accept : PartyParams} {rate fid extra : ℕ} {config : FeeConfig} {script : Script}
      {tx : Transaction} (r : FundSplit bitcoin offer accept rate fid extra config script tx)
      → r.value < dust_limit
      → script_eq r.o.0.script_pubkey (to_v0_p2wsh script) ≡ false
      → script_eq r.a.0.script_pubkey (to_v0_p2wsh script) ≡ false
      → get_output_for_script_pubkey tx (to_v0_p2wsh script) ≡ none
  unfolding get_output_for_script_pubkey
  fund_output-lost {offer} {accept} {rate} {fid} {extra} {config} {script} {tx} r lt ho ha =
      let s = to_v0_p2wsh script in
      let small : leb dust_limit r.value ≡ false = ground arith in
      ap (λ z. find_output 0 z s) r.outputs
      ∙ find_output-none 0 s _ (
          (order_by_serial_ids-All (Avoids s)
              (record { value = r.value; script_pubkey = s } ∷ r.o.0 ∷ r.a.0 ∷ [])
              (fid ∷ offer.change_serial_id ∷ accept.change_serial_id ∷ []) refl).1
            ((λ e. absurd (true≢false (sym e ∙ small))), ((λ _. ho), ((λ _. ha), tt))))

  -- With 64-bit input amounts and collaterals that reach the dust limit together, creating the transactions
  -- of a contract never panics: it returns them or an error.
  pub create_dlc_transactions-IsSafe :
      (offer accept : PartyParams) (payouts : List Payout)
      (refund_lock_time rate fund_lock_time cet_lock_time fid : ℕ) (config : FeeConfig)
      → IsU64 offer.input_amount
      → IsU64 accept.input_amount
      → dust_limit ≤ offer.collateral + accept.collateral
      → IsSafe (
          create_dlc_transactions bitcoin offer accept payouts refund_lock_time rate fund_lock_time
            cet_lock_time fid config)
  unfolding create_dlc_transactions
  create_dlc_transactions-IsSafe offer accept payouts refund_lock_time rate fund_lock_time
        cet_lock_time fid config ho ha enough =
      >>=-IsSafe
        (create_fund_transaction_with_fees bitcoin offer accept rate fund_lock_time fid 0 config) _
        (create_fund_transaction-IsSafe bitcoin offer accept rate fund_lock_time fid 0 config ho ha)
        (λ f h.
          let r =
            create_fund_transaction-FundSplit bitcoin offer accept rate fund_lock_time fid 0 config
              ho ha (omega arith) h in
          let worth = r.worth in
          >>=-IsSafe (unwrap (get_output_for_script_pubkey f.0 (to_v0_p2wsh f.1))) _
            (unwrap-IsSafe (get_output_for_script_pubkey f.0 (to_v0_p2wsh f.1))
              (fund_output-found r (omega arith)))
            (λ o _.
              >>=-IsSafe
                (create_cets_and_refund_tx offer accept _ payouts refund_lock_time cet_lock_time
                  none)
                _
                (create_cets_and_refund_tx-IsSafe offer accept _ payouts refund_lock_time
                  cet_lock_time none)
                (λ _ _. ok-IsSafe _)))

  -- A contract so small that its fund output is dust panics instead of returning an error, if the
  -- change of neither party goes to the script of the fund output.
  pub create_dlc_transactions_dust :
      (offer accept : PartyParams) (payouts : List Payout)
      (refund_lock_time rate fund_lock_time cet_lock_time fid : ℕ) (config : FeeConfig)
      {tx : Transaction} {script : Script}
      → (r : FundSplit bitcoin offer accept rate fid 0 config script tx)
      → create_fund_transaction_with_fees bitcoin offer accept rate fund_lock_time fid 0 config
        ≡ ok (tx, script)
      → r.value < dust_limit
      → script_eq r.o.0.script_pubkey (to_v0_p2wsh script) ≡ false
      → script_eq r.a.0.script_pubkey (to_v0_p2wsh script) ≡ false
      → create_dlc_transactions bitcoin offer accept payouts refund_lock_time rate fund_lock_time
          cet_lock_time fid config
        ≡ panic
  unfolding create_dlc_transactions
  create_dlc_transactions_dust offer accept payouts refund_lock_time rate fund_lock_time
        cet_lock_time fid config r h lt ho ha =
      rw h (rw (fund_output-lost r lt ho ha) refl)

  -- When the transactions of a contract are created, every payout shares out the whole collateral,
  -- there is a CET for each payout that pays it, and the refund transaction pays the collaterals.
  pub create_dlc_transactions-PaysOut :
      (offer accept : PartyParams) (payouts : List Payout)
      (refund_lock_time rate fund_lock_time cet_lock_time fid : ℕ) (config : FeeConfig)
      {d : DlcTransactions}
      → create_dlc_transactions bitcoin offer accept payouts refund_lock_time rate fund_lock_time
          cet_lock_time fid config
        ≡ ok d
      → Proper (offer.collateral + accept.collateral) payouts
        × PaysOut (offer.collateral + accept.collateral) payouts (d.cets, d.refund)
  unfolding create_dlc_transactions
  create_dlc_transactions-PaysOut offer accept payouts refund_lock_time rate fund_lock_time
        cet_lock_time fid config {d} h =
      let (f, _, h₁) =
        >>=-eq-ok
          (create_fund_transaction_with_fees bitcoin offer accept rate fund_lock_time fid 0 config)
          _ h in
      let (o, _, h₂) =
        >>=-eq-ok (unwrap (get_output_for_script_pubkey f.0 (to_v0_p2wsh f.1))) _ h₁ in
      let (r, e, h₃) =
        >>=-eq-ok
          (create_cets_and_refund_tx offer accept _ payouts refund_lock_time cet_lock_time none) _
          h₂ in
      let (proper, pays) =
        create_cets_and_refund_tx-PaysOut offer accept _ payouts refund_lock_time cet_lock_time none
          e in
      (
        proper,
        subst
            (λ (z : DlcTransactions).
              PaysOut (offer.collateral + accept.collateral) payouts (z.cets, z.refund))
            (ok-inj h₃) pays,
      )
