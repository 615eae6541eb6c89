-- ===== src/Tests/Fixtures.antt =====
-- The instances and the data of the tests.
use route_n_root.Prelude.{
  ℕ, zero, suc, ◌≡◌, refl, true, some, [], ◌∷◌, Bytes, Map, lookup, insert, erase, lookup-insert,
  lookup-erase, length, bytes_key, arith, ap, sym, ◌∙◌,
}
use route_n_root.Prelude.Int.{pos}
use route_n_root.Core.{Transaction, Block}
use route_n_root.Platform.{LevelDb, Json, Sha256}
use route_n_root.Chain.{
  block_key, Blockchain, genesis_block, current_key, add_block, hash_block, get_block_by_height,
  verify_block,
}
use route_n_root.Chain.Links.{IsChain, add_block-IsChain}
use route_n_root.Tests.Codec.{enc_block, dec_block, dec_block-enc_block}

abbrev pub memory_db : LevelDb
memory_db = record {
  Db = Map Bytes Bytes;
  get = lookup;
  put = λ k v d. (insert k v d, true);
  delete = λ k d. (erase k d, true);
  get-put = λ k v j d _. lookup-insert k j v d;
  get-delete = λ k j d _. lookup-erase k j d;
}

abbrev pub byte_json : Json
byte_json = record {
  marshal_block = λ b. some (enc_block b);
  unmarshal_block = dec_block;
  unmarshal-marshal = λ b bytes h.
      let same : enc_block b ≡ bytes = cc in ap dec_block (sym same) ∙ dec_block-enc_block b;
  marshal_transaction = λ tx. some tx.id;
  transaction_error = λ tx. tx.id;
}

abbrev pub pad : ℕ → Bytes → Bytes
pad zero _ = []
pad (suc n) [] = 0 ∷ pad n []
pad (suc n) (x ∷ xs) = x ∷ pad n xs

pub length-pad : (n : ℕ) (xs : Bytes) → length (pad n xs) ≡ n
length-pad zero xs = refl
length-pad (suc n) [] = ap suc (length-pad n [])
length-pad (suc n) (x ∷ xs) = ap suc (length-pad n xs)

abbrev pub pad_hash : Bytes → Bytes
pad_hash = pad 32

abbrev pub padded : Sha256
padded = record { sum = pad_hash; length-sum = length-pad 32 }

abbrev pub alice : Bytes
alice = 97 ∷ 108 ∷ []

abbrev pub bob : Bytes
bob = 98 ∷ 111 ∷ []

abbrev pub payment : Transaction
payment = record {
  id = 7 ∷ [];
  from = alice;
  to = bob;
  amount = pos 5;
  timestamp = 1;
  nonce = 0;
  fee = pos 1;
  signature = [];
  payload = [];
}

abbrev pub TestChain : Type 0
TestChain = Blockchain memory_db byte_json padded

abbrev pub empty_chain : TestChain
empty_chain = record {
  db = (current_key, enc_block genesis_block) ∷ [];
  current_block = genesis_block;
  difficulty = pos 1;
}

abbrev pub block_one : Block
block_one = record genesis_block {
  header = record genesis_block.header {
    height = 1;
    prev_block_hash = pad_hash (enc_block genesis_block);
  };
  transactions = payment ∷ [];
}

pub empty_chain-IsChain : IsChain memory_db byte_json padded empty_chain
unfolding genesis_block get_block_by_height lookup current_key block_key
empty_chain-IsChain = record {
  stored = λ h low high. absurd (omega arith);
  linked = λ h a b ga gb low high. absurd (omega arith);
  tip = λ low. absurd (omega arith);
  no_genesis = refl;
}

-- The chain with its first block.
abbrev pub chain_one : TestChain
chain_one = (add_block memory_db byte_json padded empty_chain block_one).0

pub chain_one-IsChain : IsChain memory_db byte_json padded chain_one
unfolding genesis_block verify_block hash_block add_block
chain_one-IsChain =
    add_block-IsChain memory_db byte_json padded empty_chain block_one empty_chain-IsChain
      (omega arith) refl refl
