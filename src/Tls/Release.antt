-- ===== src/Tls/Release.antt =====
-- The destructor of the TLS object of source/tls.cpp frees what its calls allocated.
use ez.Base.{◌≡◌, ◌∙◌, ◌∷◌, ◌++◌, ℕ, refl, sym, ap, Bool, Option, none, some, List, []}
use mathlib.Core.List.{Perm}
use mathlib.Core.List.Perm
use mathlib.Core.Path.{subst}
use ez.Tls.Lifetime.{
  Version, Memory, new, Objects, unless_there, unchecked, connect, stored_in, listen, freed,
  destroy, IsStore, held, unless_there-Perm, freed-Perm,
}

pub record IsMemory (mem : Memory) : Type 0 where
  pub contexts : mem.World → List ℕ
  pub configs : mem.World → List ℕ
  pub client : IsStore mem contexts mem.tls_client mem.tls_free
  pub config : IsStore mem configs mem.tls_config_new mem.tls_config_free
  pub client_apart : (w : mem.World) → configs (mem.tls_client w).1 ≡ configs w
  pub config_apart : (w : mem.World) → contexts (mem.tls_config_new w).1 ≡ contexts w
  pub free_apart : (w : mem.World) (c : ℕ) → configs (mem.tls_free w c) ≡ configs w
  pub config_free_apart : (w : mem.World) (c : ℕ) → contexts (mem.tls_config_free w c) ≡ contexts w
  pub accepted :
      (w w' : mem.World) (server : Option ℕ) (c : ℕ)
      → mem.accept_cbs w server ≡ (some c, w')
      → Perm (contexts w') (c ∷ contexts w)
  pub not_accepted :
      (w w' : mem.World) (server : Option ℕ)
      → mem.accept_cbs w server ≡ (none, w')
      → contexts w' ≡ contexts w
  pub accept_apart :
      (w : mem.World) (server : Option ℕ) → configs (mem.accept_cbs w server).1 ≡ configs w
  pub configured :
      (w : mem.World) (context config : Option ℕ) (check_cert : Bool) (versions : List Version)
      (host : List ℕ)
      → let w' =
          mem.connect_cbs
            (mem.tls_configure
              (unchecked mem check_cert config (mem.set_protocols w config versions))
              context
              config)
            context
            host in
        (contexts w' ≡ contexts w) × (configs w' ≡ configs w)

-- A call of `connect`.
pub data Connect : Type 0 where
  connects : (host : List ℕ) (check_cert : Bool) → Connect

module _ (mem : Memory) where
  abbrev pub connect_all : List Connect → Objects mem → Objects mem
  connect_all [] x = x
  connect_all (connects host check_cert ∷ cs) x = connect_all cs (connect mem host check_cert x)

  abbrev pub listening_first : Option (Option ℕ) → Objects mem → Objects mem
  listening_first none x = x
  listening_first (some server) x = listen mem server x

module _ (mem : Memory) (good : IsMemory mem) where
  -- What is live is what the object holds and what others hold.
  abbrev Owned : (contexts configs : List ℕ) → Objects mem → Type 0
  Owned cs fs (h, w) =
      Perm (good.contexts w) (held h.context ++ cs) × Perm (good.configs w) (held h.config ++ fs)

  apart :
      {V : Type 0} (view : mem.World → V) (f : mem.World → Option ℕ × mem.World)
      → ((w : mem.World) → view (f w).1 ≡ view w)
      → (o : Option ℕ) (w : mem.World) → view (unless_there mem o f w).1 ≡ view w
  apart view f law none w = law w
  apart view f law (some c) w = refl

  connect-Owned :
      (cs fs : List ℕ) (host : List ℕ) (check_cert : Bool) (x : Objects mem)
      → Owned cs fs x
      → Owned cs fs (connect mem host check_cert x)
  unfolding connect
  connect-Owned cs fs host check_cert (h, w) (p, q) =
      let r1 = unless_there mem h.context mem.tls_client w in
      let r2 = unless_there mem h.config mem.tls_config_new r1.1 in
      let (same_c, same_f) = good.configured r2.1 r1.0 r2.0 check_cert _ host in
      let p1 =
        unless_there-Perm mem good.contexts mem.tls_client mem.tls_free good.client h.context w cs
          p in
      let e1 = apart good.contexts mem.tls_config_new good.config_apart h.config r1.1 in
      let e2 = apart good.configs mem.tls_client good.client_apart h.context w in
      (
        subst (λ l. Perm l (held r1.0 ++ cs)) (sym (same_c ∙ e1)) p1,
        subst (λ l. Perm l (held r2.0 ++ fs)) (sym same_f)
            (unless_there-Perm mem good.configs mem.tls_config_new mem.tls_config_free good.config
              h.config r1.1 fs (subst (λ l. Perm l (held h.config ++ fs)) (sym e2) q)),
      )

  connect_all-Owned :
      (cs fs : List ℕ) (calls : List Connect) (x : Objects mem)
      → Owned cs fs x
      → Owned cs fs (connect_all mem calls x)
  connect_all-Owned cs fs [] x p = p
  connect_all-Owned cs fs (connects host check_cert ∷ calls) x p =
      connect_all-Owned cs fs calls (connect mem host check_cert x)
        (connect-Owned cs fs host check_cert x p)

  listening_first-Owned :
      (server : Option (Option ℕ)) (w : mem.World)
      → Owned (good.contexts w) (good.configs w) (listening_first mem server (new, w))
  unfolding listen
  listening_first-Owned none w = (Perm.refl _, Perm.refl _)
  listening_first-Owned (some server) w =
      go (mem.accept_cbs w server).0 (mem.accept_cbs w server).1 refl
    where
      go :
          (o : Option ℕ) (w' : mem.World)
          → mem.accept_cbs w server ≡ (o, w')
          → Owned
              (good.contexts w)
              (good.configs w)
              (record new { context = stored_in mem none o }, w')
      go none w' e = (
        rw (good.not_accepted w w' server e) (Perm.refl _),
        rw (sym (ap (λ r. good.configs r.1) e) ∙ good.accept_apart w server) (Perm.refl _),
      )
      go (some c) w' e = (
        good.accepted w w' server c e,
        rw (sym (ap (λ r. good.configs r.1) e) ∙ good.accept_apart w server) (Perm.refl _),
      )

  freed_apart :
      (view : mem.World → List ℕ) (f : mem.World → ℕ → mem.World)
      → ((w : mem.World) (c : ℕ) → view (f w c) ≡ view w)
      → (o : Option ℕ) (w : mem.World) → view (freed mem f o w) ≡ view w
  freed_apart view f law none w = refl
  freed_apart view f law (some c) w = law w c

  destroy-Perm :
      (cs fs : List ℕ) (x : Objects mem)
      → Owned cs fs x
      → Perm (good.contexts (destroy mem x)) cs × Perm (good.configs (destroy mem x)) fs
  unfolding destroy
  destroy-Perm cs fs (h, w) (p, q) =
      let w1 = freed mem mem.tls_free h.context w in
      (
        subst (λ l. Perm l cs)
            (sym (freed_apart good.contexts mem.tls_config_free good.config_free_apart h.config w1))
            (freed-Perm mem good.contexts mem.tls_client mem.tls_free good.client h.context w cs p),
        freed-Perm mem good.configs mem.tls_config_new mem.tls_config_free good.config h.config w1
            fs
            (subst (λ l. Perm l (held h.config ++ fs))
              (sym (freed_apart good.configs mem.tls_free good.free_apart h.context w)) q),
      )

  -- An object that is made, may listen first and connects any number of times, and is destroyed,
  -- leaves exactly the contexts and the configurations allocated that were so before: it frees each
  -- one that its calls allocated, and no other.
  pub destroy-frees :
      (first : Option (Option ℕ)) (calls : List Connect) (w : mem.World)
      → let w' = destroy mem (connect_all mem calls (listening_first mem first (new, w))) in
        Perm (good.contexts w') (good.contexts w) × Perm (good.configs w') (good.configs w)
  destroy-frees first calls w =
      destroy-Perm (good.contexts w) (good.configs w)
        (connect_all mem calls (listening_first mem first (new, w)))
        (connect_all-Owned (good.contexts w) (good.configs w) calls
          (listening_first mem first (new, w)) (listening_first-Owned first w))
