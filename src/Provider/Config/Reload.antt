-- ===== src/Provider/Config/Reload.antt =====
-- ipc/provider/src/config/mod.rs, reload.rs: reading and writing the configuration file, and the
-- configuration that is read again on demand. The lock is free, and a subscriber is told by a
-- message on a channel, which is counted.
use mathlib.Core.Path.{subst}
use ipc_client.Base.{ℕ, suc, ◌≡◌, refl, ap, Option, Result, ok, err, panic}
use ipc_client.Base.Exec.{Exec, ◌>>=◌, lift}
use ipc_client.Base.Text.{Text}
use ipc_client.Provider.Config.{Config}

-- The file system and TOML.
pub record ConfigFiles (Address World : Type 0) : Type 0 where
  pub read_to_string : Text → World → Result Text Text
  pub write : Text → Text → Exec Text World (Unit {0})
  pub toml_from_str : Text → Result Text (Config Address)
  pub toml_to_string : Config Address → Result Text Text
  -- `Path::parent`, as text
  pub parent_text : Text → Option Text

pub record ReloadableConfig (Address : Type 0) : Type 0 where
  pub path : Text
  pub config : Config Address
  -- how many notifications were sent
  pub broadcasts : ℕ

module _ {Address World : Type 0} (files : ConfigFiles Address World) where
  abbrev pub from_toml_str : Text → Result Text (Config Address)
  from_toml_str s = files.toml_from_str s

  -- `from_file`, and `from_file_async`
  unfoldable pub from_file : Text → Exec Text World (Config Address)
  from_file path w =
      (do contents ← lift (files.read_to_string path w); lift (from_toml_str contents)) w

  unfoldable pub write_to_file : Text → Config Address → Exec Text World (Unit {0})
  write_to_file path self = do content ← lift (files.toml_to_string self); files.write path content

  abbrev pub State : Type 0
  State = ReloadableConfig Address × World

  abbrev pub opened :
      Text → World → Result Text (Config Address) → Result Text (ReloadableConfig Address) × World
  opened path w (ok config) = (ok (record { path = path; config = config; broadcasts = 0 }), w)
  opened path w (err m) = (err m, w)
  opened path w panic = (panic, w)

  unfoldable pub new : Text → Exec Text World (ReloadableConfig Address)
  unfolding from_file
  new path w = opened path w (from_file path w).0

  abbrev pub get_config : ReloadableConfig Address → Config Address
  get_config self = self.config

  abbrev pub set_path : Text → ReloadableConfig Address → ReloadableConfig Address
  set_path path self = record self { path = path }

  abbrev pub get_config_repo : ReloadableConfig Address → Option Text
  get_config_repo self = files.parent_text self.path

  unfoldable pub reload : Exec Text State (Unit {0})
  unfolding from_file
  reload (self, w) = elim (from_file self.path w).0 [
    | ok new_config ↦
        (ok tt, ((record self { config = new_config; broadcasts = suc self.broadcasts }), w))
    | err m ↦ (err m, (self, w))
    | panic ↦ (panic, (self, w))
  ]

  -- A configuration that was opened and is read again while the world stands still is as it was, but
  -- for the notification.
  reload-new :
      (path : Text) (self : ReloadableConfig Address) (w : World)
      → new path w ≡ (ok self, w)
      → reload (self, w) ≡ (ok tt, (record self { broadcasts = 1 }, w))
  unfolding reload new
  reload-new path self w h = from_result (from_file path w).0 refl h
    where
      value : Result Text (ReloadableConfig Address) → ReloadableConfig Address
      value (ok s) = s
      value (err m) = self
      value panic = self

      from_result :
          (r : Result Text (Config Address))
          → (from_file path w).0 ≡ r
          → opened path w r ≡ (ok self, w)
          → reload (self, w) ≡ (ok tt, (record self { broadcasts = 1 }, w))
      from_result (ok c) q h =
          let first : ReloadableConfig Address = record {
            path = path;
            config = c;
            broadcasts = 0;
          } in
          let same : first ≡ self = ap (λ p. value p.0) h in
          subst (λ s. reload (s, w) ≡ (ok tt, (record s { broadcasts = 1 }, w))) same
            (rw (q, reload) refl)
      from_result (err m) q h = absurd (let h' = ap (λ p. p.0) h in cc)
      from_result panic q h = absurd (let h' = ap (λ p. p.0) h in cc)
