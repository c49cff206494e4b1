-- ===== src/Chain/Forgery.antt =====
-- What a header decides for a block, and losing a race is no forgery (internal/chain/chain.go).
use shadowledger.Prelude.{
  ℕ, ◌≡◌, ◌≢◌, refl, ap, ◌∙◌, false, List, Option, none, some, ◌==◌, bytes_eq_iff, Bool-cases, inl,
  inr, ◌⊎◌, arith,
}
use shadowledger.Prelude.Words.{add64}
use shadowledger.Crypto.{Env}
use shadowledger.Types.Data.{Transaction, Header, Block}
use shadowledger.Types.Encode.{header_id}
use shadowledger.State.Data.{State}
use shadowledger.State.Ledger.{Work}
use shadowledger.State.Effects.{Effect, applied, rejected, crashed, EvidenceDecoder}
use shadowledger.State.Apply.{
  apply_block, apply_coinbase, and_then, finish, split_coinbase, apply_txs, begin,
}
use shadowledger.Chain.Data.{ChainError, Node, Chain, failed}
use shadowledger.Chain.Extend.{check_external, apply_external_block}
use shadowledger.Chain.Sync.{is_forgery}

-- The coinbase's test reads the height and the validator alone.
apply_coinbase_header :
    (h k : Header) (o : Option Transaction) (w : Work)
    → h.height ≡ k.height
    → h.validator ≡ k.validator
    → apply_coinbase h o w ≡ apply_coinbase k o w
unfolding apply_coinbase
apply_coinbase_header h k none w e f = rw (e, f) refl
apply_coinbase_header h k (some c) w e f = rw (e, f) refl

and_then_same :
    (r : Effect) (f g : Work → Effect) → ((w : Work) → f w ≡ g w) → and_then r f ≡ and_then r g
and_then_same (applied w) f g h = h w
and_then_same (rejected e w) f g h = refl
and_then_same crashed f g h = refl

finish_height :
    (s : State) (h k : Header) (r : Effect) → h.height ≡ k.height → finish s h r ≡ finish s k r
finish_height s h k (applied w) e = rw e refl
finish_height s h k (rejected x w) e = refl
finish_height s h k crashed e = refl

-- Two blocks with the same transactions, height and validator do the same.
pub apply_block_header :
    (env : Env) (decode : EvidenceDecoder) (h k : Header) (txs : List Transaction) (s : State)
    → h.height ≡ k.height
    → h.validator ≡ k.validator
    → apply_block env decode (record { header = h; txs = txs }) s
      ≡ apply_block env decode (record { header = k; txs = txs }) s
unfolding apply_block
apply_block_header env decode h k txs s e f =
    let (first, payload) = split_coinbase txs in
    let same : apply_txs env decode h.height 0 payload (begin s)
        ≡ apply_txs env decode k.height 0 payload (begin s) =
      ap (λ n. apply_txs env decode n 0 payload (begin s)) e in
    finish_height s h k _ e
    ∙ ap (finish s k) (
        ap (λ r. and_then r (apply_coinbase h first)) same
        ∙ and_then_same _ (apply_coinbase h first) (apply_coinbase k first)
            (λ w. apply_coinbase_header h k first w e f))

-- A block that does not follow the head stops at the first test that says so.
check_external_apart :
    (node : Node) (now : ℕ) (b : Block) (c : Chain)
    → node.authorize c.state b.header ≡ none
    → ((b.header.height ≢ add64 c.head.height 1) ⊎ (b.header.prev_hash ≢ header_id node.env c.head))
    → (e : ChainError) × ((check_external node now b c ≡ some e) × (is_forgery e ≡ false))
unfolding check_external is_forgery
check_external_apart node now b c good apart =
    let at_prev = bytes_eq_iff b.header.prev_hash (header_id node.env c.head) in
    elim (Bool-cases c.has_gen) [
      | inr none_yet ↦ (ChainError.no_genesis, (ground (arith, none_yet), refl))
      | inl begun ↦ elim (Bool-cases (b.header.height == add64 c.head.height 1)) [
        | inr off ↦ (ChainError.bad_height, (ground (arith, begun, good, off), refl))
        | inl on ↦ (ChainError.bad_prev, (ground (arith, begun, good, on, apart, at_prev), refl))
      ]
    ]

-- A block that is signed by an authorized validator but does not follow the receiver's head, in height or
-- by its previous hash, is refused with an error that is not a forgery, and the chain is as it was.
pub is_forgery-apply_external_block :
    (node : Node) (now : ℕ) (b : Block) (c : Chain)
    → node.authorize c.state b.header ≡ none
    → ((b.header.height ≢ add64 c.head.height 1) ⊎ (b.header.prev_hash ≢ header_id node.env c.head))
    → (e : ChainError) × ((apply_external_block node now b c ≡ failed e c) × (is_forgery e ≡ false))
unfolding apply_external_block
is_forgery-apply_external_block node now b c good apart =
    let (e, (stops, benign)) = check_external_apart node now b c good apart in
    (e, (rw (stops, apply_external_block) refl, benign))
