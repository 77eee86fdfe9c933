-- ===== src/Repository/WellFormed/DeviceRows.antt =====
-- The rows of `devices` and of `devices_accounts` under the statements.
use apollo_backend.Prelude.{
  ℕ, ◌+◌, ◌<◌, ◌≡◌, refl, ap, Bool, true, false, List, [], ◌∷◌, ◌++◌, arith, any, All-append,
  All-map_pred,
}
use apollo_backend.Prelude.Table.{update_where, delete_where, All-delete_where, All-update_where}
use apollo_backend.Prelude.Keys.{
  Unique-append, Unique-update_where, Unique-delete_where, Absent-of_any,
}
use apollo_backend.Str.{str_eq_iff}
use apollo_backend.Domain.{Device}
use apollo_backend.Schema.{AccountRow, DeviceAccountRow}
use apollo_backend.Repository.Accounts.{has_id, links, fresh_link}
use apollo_backend.Repository.Devices.{has_token, switched}
use apollo_backend.Repository.WellFormed.{DevicesOk, LinksOk, device_has_id}
use apollo_backend.Repository.WellFormed.AccountRows.{Absent-of_below, below_suc}

module _ (dev : Device) {rows : List Device} {seq : ℕ} (ok_rows : DevicesOk rows seq) where
  pub insert-DevicesOk :
      any (has_token dev.apns_token) rows ≡ false
      → DevicesOk (rows ++ record dev { id = seq } ∷ []) (seq + 1)
  insert-DevicesOk e = record {
    tokens =
        Unique-append (λ d. d.apns_token) rows (record dev { id = seq })
          (Absent-of_any (λ d. d.apns_token) dev.apns_token (has_token dev.apns_token) rows
            (λ r x. (str_eq_iff _ _).1 x) e)
          ok_rows.tokens;
    ids =
        Unique-append (λ d. d.id) rows (record dev { id = seq })
          (Absent-of_below (λ d. d.id) seq rows ok_rows.below) ok_rows.ids;
    below =
        All-append (λ d. d.id < seq + 1) rows (record dev { id = seq } ∷ [])
          (below_suc (λ d. d.id) seq rows ok_rows.below) (omega arith, tt);
  }

  pub switch-DevicesOk : (p : Device → Bool) → DevicesOk (update_where p (switched dev) rows) seq
  unfolding switched
  switch-DevicesOk p = record {
    tokens =
        Unique-update_where (λ d. d.apns_token) p (switched dev) rows (λ r _. refl) ok_rows.tokens;
    ids = Unique-update_where (λ d. d.id) p (switched dev) rows (λ r _. refl) ok_rows.ids;
    below = All-update_where (λ d. d.id < seq) p (switched dev) rows (λ r _ h. h) ok_rows.below;
  }

pub skip-DevicesOk : {rows : List Device} {seq : ℕ} → DevicesOk rows seq → DevicesOk rows (seq + 1)
skip-DevicesOk {rows} {seq} ok_rows = record {
  tokens = ok_rows.tokens;
  ids = ok_rows.ids;
  below = below_suc (λ d. d.id) seq rows ok_rows.below;
}

pub delete-DevicesOk :
    (p : Device → Bool) {rows : List Device} {seq : ℕ}
    → DevicesOk rows seq
    → DevicesOk (delete_where p rows) seq
delete-DevicesOk p {rows} {seq} h = record {
  tokens = Unique-delete_where (λ d. d.apns_token) p rows h.tokens;
  ids = Unique-delete_where (λ d. d.id) p rows h.ids;
  below = All-delete_where (λ d. d.id < seq) p rows h.below;
}

pair_links :
    (l : DeviceAccountRow) (a d : ℕ)
    → ◌≡◌ {A = ℕ × ℕ} (l.account_id, l.device_id) (a, d)
    → links a d l ≡ true
pair_links l a d e =
    let x : l.account_id ≡ a = ap (λ (p : ℕ × ℕ). p.0) e in
    let y : l.device_id ≡ d = ap (λ (p : ℕ × ℕ). p.1) e in ground arith

module _ {accounts : List AccountRow} {devices : List Device} {rows : List DeviceAccountRow}
    (h : LinksOk accounts devices rows) where
  -- Other tables, in which every number that was there still is.
  pub LinksOk-tables :
      {accounts' : List AccountRow} {devices' : List Device}
      → ((i : ℕ) → any (has_id i) accounts ≡ true → any (has_id i) accounts' ≡ true)
      → ((i : ℕ) → any (device_has_id i) devices ≡ true → any (device_has_id i) devices' ≡ true)
      → LinksOk accounts' devices' rows
  LinksOk-tables {accounts'} {devices'} keeps_a keeps_d = record {
    to_accounts =
        All-map_pred (λ l. any (has_id l.account_id) accounts ≡ true)
          (λ l. any (has_id l.account_id) accounts' ≡ true) (λ l x. keeps_a l.account_id x) rows
          h.to_accounts;
    to_devices =
        All-map_pred (λ l. any (device_has_id l.device_id) devices ≡ true)
          (λ l. any (device_has_id l.device_id) devices' ≡ true) (λ l x. keeps_d l.device_id x) rows
          h.to_devices;
    pairs = h.pairs;
  }

  pub delete-LinksOk :
      (p : DeviceAccountRow → Bool) → LinksOk accounts devices (delete_where p rows)
  delete-LinksOk p = record {
    to_accounts =
        All-delete_where (λ l. any (has_id l.account_id) accounts ≡ true) p rows h.to_accounts;
    to_devices =
        All-delete_where (λ l. any (device_has_id l.device_id) devices ≡ true) p rows h.to_devices;
    pairs =
        Unique-delete_where (λ l. let q : ℕ × ℕ = (l.account_id, l.device_id) in q) p rows h.pairs;
  }

  pub flags-LinksOk :
      (p : DeviceAccountRow → Bool) (f : DeviceAccountRow → DeviceAccountRow)
      → ((l : DeviceAccountRow) → (f l).account_id ≡ l.account_id)
      → ((l : DeviceAccountRow) → (f l).device_id ≡ l.device_id)
      → LinksOk accounts devices (update_where p f rows)
  flags-LinksOk p f same_a same_d = record {
    to_accounts =
        All-update_where (λ l. any (has_id l.account_id) accounts ≡ true) p f rows
          (λ l _ x. rw same_a x) h.to_accounts;
    to_devices =
        All-update_where (λ l. any (device_has_id l.device_id) devices ≡ true) p f rows
          (λ l _ x. rw same_d x) h.to_devices;
    pairs =
        Unique-update_where (λ l. let q : ℕ × ℕ = (l.account_id, l.device_id) in q) p f rows
          (λ l _. cc (same_a l, same_d l)) h.pairs;
  }

  pub link-LinksOk :
      (a d : ℕ)
      → any (links a d) rows ≡ false
      → any (has_id a) accounts ≡ true
      → any (device_has_id d) devices ≡ true
      → LinksOk accounts devices (rows ++ fresh_link a d ∷ [])
  link-LinksOk a d new there_a there_d = record {
    to_accounts =
        All-append (λ l. any (has_id l.account_id) accounts ≡ true) rows (fresh_link a d ∷ [])
          h.to_accounts (there_a, tt);
    to_devices =
        All-append (λ l. any (device_has_id l.device_id) devices ≡ true) rows (fresh_link a d ∷ [])
          h.to_devices (there_d, tt);
    pairs =
        Unique-append (λ l. let q : ℕ × ℕ = (l.account_id, l.device_id) in q) rows (fresh_link a d)
          (Absent-of_any (λ l. let q : ℕ × ℕ = (l.account_id, l.device_id) in q) (a, d) (links a d)
            rows (λ l e. pair_links l a d e) new)
          h.pairs;
  }
