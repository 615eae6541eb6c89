-- ===== src/Tests/Codec.antt =====
-- A reversible encoding of blocks: the numbers first, then the byte strings, then the transactions.
use route_n_root.Prelude.{ℕ, zero, suc, ◌≡◌, refl, Option, none, some, List, [], ◌∷◌, Bytes, length}
use route_n_root.Prelude.Int.{ℤ, pos, negsuc}
use route_n_root.Core.{Transaction, Block}

-- An entry follows each 1, and a 0 ends the list.
abbrev pub enc_bytes : Bytes → Bytes → Bytes
enc_bytes [] rest = zero ∷ rest
enc_bytes (x ∷ xs) rest = suc zero ∷ x ∷ enc_bytes xs rest

abbrev pub dec_bytes : Bytes → Option (Bytes × Bytes)
dec_bytes [] = none
dec_bytes (zero ∷ rest) = some ([], rest)
dec_bytes (suc _ ∷ []) = none
dec_bytes (suc _ ∷ x ∷ rest) = elim (dec_bytes rest) [
  | none ↦ none
  | some (xs, rest') ↦ some (x ∷ xs, rest')
]

dec_bytes-enc_bytes : (xs rest : Bytes) → dec_bytes (enc_bytes xs rest) ≡ some (xs, rest)
dec_bytes-enc_bytes [] rest = refl
dec_bytes-enc_bytes (x ∷ xs) rest = rw (dec_bytes-enc_bytes xs rest) refl

-- An integer is its sign and its number.
abbrev pub enc_int : ℤ → Bytes → Bytes
enc_int (pos n) rest = zero ∷ n ∷ rest
enc_int (negsuc n) rest = suc zero ∷ n ∷ rest

abbrev pub dec_int : Bytes → Option (ℤ × Bytes)
dec_int (zero ∷ n ∷ rest) = some (pos n, rest)
dec_int (suc _ ∷ n ∷ rest) = some (negsuc n, rest)
dec_int _ = none

dec_int-enc_int : (z : ℤ) (rest : Bytes) → dec_int (enc_int z rest) ≡ some (z, rest)
dec_int-enc_int (pos n) rest = refl
dec_int-enc_int (negsuc n) rest = refl

-- The next decoder gets what the last one read, and the rest.
abbrev pub chain {ℓ κ} :
    {A : Type ℓ} {B : Type κ} → Option (A × Bytes) → (A → Bytes → Option B) → Option B
chain none f = none
chain (some (a, rest)) f = f a rest

abbrev pub enc_tx : Transaction → Bytes → Bytes
enc_tx tx rest =
    tx.timestamp
    ∷ tx.nonce
    ∷ enc_int tx.amount (
        enc_int tx.fee (
          enc_bytes tx.id (
            enc_bytes tx.from
              (enc_bytes tx.to (enc_bytes tx.signature (enc_bytes tx.payload rest))))))

abbrev pub dec_tx : Bytes → Option (Transaction × Bytes)
dec_tx (t ∷ n ∷ rest) = chain (dec_int rest) (λ amount r. chain (dec_int r) (λ fee r.
    chain (dec_bytes r) (λ id r. chain (dec_bytes r) (λ from r. chain (dec_bytes r) (λ to r.
      chain (dec_bytes r) (λ signature r. chain (dec_bytes r) (λ payload r. some (
        record {
          id = id;
          from = from;
          to = to;
          amount = amount;
          timestamp = t;
          nonce = n;
          fee = fee;
          signature = signature;
          payload = payload;
        },
        r,
      ))))))))
dec_tx _ = none

dec_tx-enc_tx : (tx : Transaction) (rest : Bytes) → dec_tx (enc_tx tx rest) ≡ some (tx, rest)
dec_tx-enc_tx tx rest =
    rw
      (
        dec_int-enc_int tx.amount _,
        dec_int-enc_int tx.fee _,
        dec_bytes-enc_bytes tx.id _,
        dec_bytes-enc_bytes tx.from _,
        dec_bytes-enc_bytes tx.to _,
        dec_bytes-enc_bytes tx.signature _,
        dec_bytes-enc_bytes tx.payload _,
      )
      refl

abbrev pub enc_txs : List Transaction → Bytes → Bytes
enc_txs [] rest = rest
enc_txs (tx ∷ txs) rest = enc_tx tx (enc_txs txs rest)

-- The number of transactions comes first.
abbrev pub dec_txs : ℕ → Bytes → Option (List Transaction × Bytes)
dec_txs zero rest = some ([], rest)
dec_txs (suc n) rest =
    chain (dec_tx rest) (λ tx r. chain (dec_txs n r) (λ txs r. some (tx ∷ txs, r)))

dec_txs-enc_txs :
    (txs : List Transaction) (rest : Bytes)
    → dec_txs (length txs) (enc_txs txs rest) ≡ some (txs, rest)
dec_txs-enc_txs [] rest = refl
dec_txs-enc_txs (tx ∷ txs) rest = rw (dec_tx-enc_tx tx _, dec_txs-enc_txs txs rest) refl

abbrev pub enc_block : Block → Bytes
enc_block b =
    b.header.version
    ∷ b.header.timestamp
    ∷ b.header.nonce
    ∷ b.header.height
    ∷ b.header.pob_score
    ∷ b.header.pob_weight
    ∷ length b.transactions
    ∷ enc_int b.header.difficulty (
        enc_bytes b.header.prev_block_hash (
          enc_bytes b.header.merkle_root (
            enc_bytes b.header.vrf_proof (
              enc_bytes b.header.vrf_output (
                enc_bytes b.proposer_id (
                  enc_bytes b.poh_sequence (
                    enc_bytes b.signature (enc_bytes b.vrf_proof (enc_txs b.transactions [])))))))))

abbrev pub dec_block : Bytes → Option Block
dec_block (version ∷ timestamp ∷ nonce ∷ height ∷ score ∷ weight ∷ count ∷ rest) =
    chain (dec_int rest) (λ difficulty r. chain (dec_bytes r) (λ prev r.
      chain (dec_bytes r) (λ root r. chain (dec_bytes r) (λ proof r.
        chain (dec_bytes r) (λ output r. chain (dec_bytes r) (λ proposer r.
          chain (dec_bytes r) (λ poh r. chain (dec_bytes r) (λ signature r.
            chain (dec_bytes r) (λ block_proof r. chain (dec_txs count r) (λ txs r. some (record {
              header = record {
                version = version;
                prev_block_hash = prev;
                merkle_root = root;
                timestamp = timestamp;
                nonce = nonce;
                difficulty = difficulty;
                height = height;
                pob_score = score;
                pob_weight = weight;
                vrf_proof = proof;
                vrf_output = output;
              };
              transactions = txs;
              proposer_id = proposer;
              poh_sequence = poh;
              signature = signature;
              vrf_proof = block_proof;
            })))))))))))
dec_block _ = none

pub dec_block-enc_block : (b : Block) → dec_block (enc_block b) ≡ some b
dec_block-enc_block b =
    rw
      (
        dec_int-enc_int b.header.difficulty _,
        dec_bytes-enc_bytes b.header.prev_block_hash _,
        dec_bytes-enc_bytes b.header.merkle_root _,
        dec_bytes-enc_bytes b.header.vrf_proof _,
        dec_bytes-enc_bytes b.header.vrf_output _,
        dec_bytes-enc_bytes b.proposer_id _,
        dec_bytes-enc_bytes b.poh_sequence _,
        dec_bytes-enc_bytes b.signature _,
        dec_bytes-enc_bytes b.vrf_proof _,
        dec_txs-enc_txs b.transactions _,
      )
      refl
