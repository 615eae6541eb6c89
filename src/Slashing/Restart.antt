-- ===== src/Slashing/Restart.antt =====
-- rnr/pkg/consensus/slashing.go: what a new manager knows of the events in its database.
use route_n_root.Prelude.{
  ◌≡◌, refl, inl, inr, false, List, [], ◌∷◌, Bytes, bytes_equal, bytes_equal_iff, Bool-cases,
  length, take, length-take-le, ap, arith,
}
use route_n_root.Prelude.Text.{codes}
use route_n_root.Platform.{LevelDb}
use route_n_root.Registry.{ValidatorState, ValidatorRegistry}
use route_n_root.Slashing.{
  EventJson, SlashingManager, is_slashing_key, load_slashing_events, new_slashing_manager,
}

-- Eight bytes are compared with a text of nine.
is_slashing_key-false : (key : Bytes) → is_slashing_key key ≡ false
unfolding is_slashing_key
is_slashing_key-false key = elim (Bool-cases (bytes_equal (take 8 key) (codes "slashing_"))) [
  | inl equal ↦
      let long : length (take 8 key) ≡ 9 = ap length ((bytes_equal_iff (take 8 key) _).0 equal) in
      absurd (omega (arith, long, length-take-le 8 key))
  | inr other ↦ ground (arith, other)
]

module _ (V : ValidatorState) (L : LevelDb) (J : EventJson) where
  load_nothing :
      (entries : List (Bytes × Bytes)) (sm : SlashingManager V L J)
      → load_slashing_events V L J entries sm ≡ sm
  unfolding load_slashing_events
  load_nothing [] sm = refl
  load_nothing ((key, value) ∷ entries) sm =
      rw (is_slashing_key-false key, load_slashing_events) (load_nothing entries sm)

  -- A new manager has no events and no votes, whatever slashing events its database holds.
  pub new_slashing_manager-forgets :
      (d : L.Db) (entries : List (Bytes × Bytes)) (registry : ValidatorRegistry V)
      → new_slashing_manager V L J d entries registry
        ≡ record { db = d; registry = registry; events = []; double_vote_tracker = [] }
  unfolding new_slashing_manager
  new_slashing_manager-forgets d entries registry = load_nothing entries _
