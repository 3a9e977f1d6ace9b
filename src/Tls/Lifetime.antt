-- ===== src/Tls/Lifetime.antt =====
-- What a TLS object of source/tls.cpp holds of the library's memory: its context and its
-- configuration, which `connect` and `listen` allocate and the destructor frees.
use ez.Base.{◌≡◌, ◌∷◌, ◌++◌, ℕ, refl, Bool, true, false, Option, none, some, List, []}
use mathlib.Core.List.{Perm}
use mathlib.Core.List.Perm

pub data Version : Type 0 where
  tls_1_2 tls_1_3 : Version

-- The library's calls; a null pointer is `none`. Of `accept`, the context that it stores, if any.
pub record Memory : Type 1 where
  pub World : Type 0
  pub tls_client : World → Option ℕ × World
  pub tls_config_new : World → Option ℕ × World
  pub set_protocols : World → Option ℕ → List Version → World
  pub insecure_noverifycert : World → Option ℕ → World
  pub insecure_noverifyname : World → Option ℕ → World
  pub tls_configure : World → Option ℕ → Option ℕ → World
  pub connect_cbs : World → Option ℕ → (host : List ℕ) → World
  pub accept_cbs : World → (server : Option ℕ) → Option ℕ × World
  pub tls_free : World → ℕ → World
  pub tls_config_free : World → ℕ → World

pub record Held : Type 0 where
  pub context : Option ℕ
  pub config : Option ℕ

-- `tls(channel&)`
abbrev pub new : Held
new = record { context = none; config = none }

module _ (mem : Memory) where
  abbrev pub Objects : Type 0
  Objects = Held × mem.World

  abbrev pub unless_there :
      Option ℕ → (mem.World → Option ℕ × mem.World) → mem.World → Option ℕ × mem.World
  unless_there (some c) f w = (some c, w)
  unless_there none f w = f w

  abbrev pub unchecked : Bool → Option ℕ → mem.World → mem.World
  unchecked true config w = w
  unchecked false config w = mem.insecure_noverifyname (mem.insecure_noverifycert w config) config

  unfoldable pub connect : (host : List ℕ) (check_cert : Bool) → Objects → Objects
  connect host check_cert (h, w) =
      let (context, w1) = unless_there h.context mem.tls_client w in
      let (config, w2) = unless_there h.config mem.tls_config_new w1 in
      let w3 = mem.set_protocols w2 config (tls_1_2 ∷ tls_1_3 ∷ []) in
      let w4 = unchecked check_cert config w3 in
      let w5 = mem.tls_configure w4 context config in
      (record { context = context; config = config }, mem.connect_cbs w5 context host)

  -- `tls_accept_cbs(g_scontext, &m_context, ...)`
  abbrev pub stored_in : Option ℕ → Option ℕ → Option ℕ
  stored_in old none = old
  stored_in old (some c) = some c

  unfoldable pub listen : (server : Option ℕ) → Objects → Objects
  listen server (h, w) =
      let (made, w') = mem.accept_cbs w server in
      (record h { context = stored_in h.context made }, w')

  abbrev pub freed : (mem.World → ℕ → mem.World) → Option ℕ → mem.World → mem.World
  freed f none w = w
  freed f (some c) w = f w c

  -- `~tls()`
  unfoldable pub destroy : Objects → mem.World
  destroy (h, w) = freed mem.tls_config_free h.config (freed mem.tls_free h.context w)

-- What is documented of the memory: the calls that allocate and free do so, and the others do not.
-- `live` are the contexts, or the configurations, that are allocated.
pub record IsStore (mem : Memory) (live : mem.World → List ℕ)
    (make : mem.World → Option ℕ × mem.World) (free : mem.World → ℕ → mem.World) : Type 0 where
  pub made : (w w' : mem.World) (c : ℕ) → make w ≡ (some c, w') → Perm (live w') (c ∷ live w)
  pub not_made : (w w' : mem.World) → make w ≡ (none, w') → live w' ≡ live w
  pub frees :
      (w : mem.World) (c : ℕ) (rest : List ℕ)
      → Perm (live w) (c ∷ rest)
      → Perm (live (free w c)) rest

abbrev pub held : Option ℕ → List ℕ
held none = []
held (some c) = c ∷ []

module _ (mem : Memory) (live : mem.World → List ℕ) (make : mem.World → Option ℕ × mem.World)
    (free : mem.World → ℕ → mem.World) (store : IsStore mem live make free) where
  -- One that is there is kept, and else one is allocated: it and the others are all that is live.
  pub unless_there-Perm :
      (o : Option ℕ) (w : mem.World) (others : List ℕ)
      → Perm (live w) (held o ++ others)
      → let r = unless_there mem o make w in Perm (live r.1) (held r.0 ++ others)
  unless_there-Perm (some c) w others p = p
  unless_there-Perm none w others p = go (make w).0 (make w).1 refl
    where
      go : (o : Option ℕ) (w' : mem.World) → make w ≡ (o, w') → Perm (live w') (held o ++ others)
      go none w' e = rw (store.not_made w w' e) p
      go (some c) w' e = Perm.trans (store.made w w' c e) (Perm.cons c p)

  pub freed-Perm :
      (o : Option ℕ) (w : mem.World) (others : List ℕ)
      → Perm (live w) (held o ++ others)
      → Perm (live (freed mem free o w)) others
  freed-Perm none w others p = p
  freed-Perm (some c) w others p = store.frees w c others p
