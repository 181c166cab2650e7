-- ===== src/ClientState/Open.antt =====
-- The constructor: the recovered messages correct a state that is behind them.
use log_bridge.Base.{
  ℕ, zero, suc, ◌+◌, ◌^◌, ◌<◌, ◌≤◌, ◌≡◌, ◌≢◌, max, refl, sym, ap, ◌∙◌, arith, Bool, true, false,
  not, leb, ◌==◌, ◌||◌, bytes_eq, bytes_eq→eq, bytes_eq_refl, Bool-cases, Result-cases, ◌⊎◌, List,
  [], ◌∷◌, All, some, none, Option, Result, ok, err, inl, inr,
}
use mathlib.Core.Path.{subst}
use log_bridge.Message.{Bytes, LogMessage}
use log_bridge.ClientState.{
  ClientState, greatest_id, maximum_recovered_id, for_source, above_recovered,
}
use log_bridge.ClientState.Load.{IsLine, IsWritable}

-- A recovered message belongs to the client and its id is below the next one.
abbrev pub IsBelow : ClientState → LogMessage → Type 0
IsBelow state m = (m.client_id ≡ state.client_id) × (m.id < state.next_id)

-- What the constructor makes of a loaded state.
pub record Corrects (source : Bytes) (recovered : List LogMessage) (loaded state : ClientState)
    : Type 0 where
  pub same_path : state.path ≡ loaded.path
  pub for_this_source : state.source_path ≡ source
  pub same_client : state.client_id ≡ loaded.client_id
  pub no_lower : loaded.next_id ≤ state.next_id
  pub above : All (IsBelow state) recovered
  pub kept_offset : loaded.source_path ≡ source → state.file_offset ≡ loaded.file_offset
  pub new_offset : bytes_eq loaded.source_path source ≡ false → state.file_offset ≡ 0
  pub writable : IsWritable state

abbrev pub IsWithin : Bytes → ℕ → LogMessage → Type 0
IsWithin client_id maximum m = (m.client_id ≡ client_id) × (m.id ≤ maximum)

pub record Maximum (client_id : Bytes) (start : ℕ) (recovered : List LogMessage) (maximum : ℕ)
    : Type 0 where
  pub within : All (IsWithin client_id maximum) recovered
  pub least : start ≤ maximum
  pub fits : start < 2 ^ 64 → All (λ (m : LogMessage). m.id < 2 ^ 64) recovered → maximum < 2 ^ 64

pub maximum_recovered_id-Maximum :
    (client_id : Bytes) (start : ℕ) (recovered : List LogMessage) {maximum : ℕ}
    → maximum_recovered_id client_id start recovered ≡ ok maximum
    → Maximum client_id start recovered maximum
unfolding maximum_recovered_id
maximum_recovered_id-Maximum client_id start [] {maximum} = λ h.
    let same : start ≡ maximum = cc in
    record {
      within = tt;
      least = omega (arith, same);
      fits = λ small _. omega (arith, same, small);
    }
maximum_recovered_id-Maximum client_id start (m ∷ rest) {maximum} =
    elim (Bool-cases (bytes_eq m.client_id client_id)) [
      | inl same ↦ rw same (λ h.
          let later =
            maximum_recovered_id-Maximum client_id (max start m.id) rest {maximum = maximum} h in
          record {
            within = (
              (bytes_eq→eq m.client_id client_id same, omega (arith, later.least)),
              later.within,
            );
            least = omega (arith, later.least);
            fits = λ small all. later.fits (omega (arith, small, all.0)) all.1;
          })
      | inr differ ↦ rw differ (λ h. absurd (thrown h))
    ]
  where
    thrown : {e : log_bridge.Base.Exception} → err e ≡ ok maximum → ⊥
    thrown h = cc

-- Of the two changes.
pub record Sourced (source : Bytes) (loaded state : ClientState) : Type 0 where
  pub same_path : state.path ≡ loaded.path
  pub for_this_source : state.source_path ≡ source
  pub same_client : state.client_id ≡ loaded.client_id
  pub same_next : state.next_id ≡ loaded.next_id
  pub kept_offset : loaded.source_path ≡ source → state.file_offset ≡ loaded.file_offset
  pub new_offset : bytes_eq loaded.source_path source ≡ false → state.file_offset ≡ 0
  pub writable : IsWritable state

module _ (source : Bytes) (recovered : List LogMessage) (loaded : ClientState)
    (fits : IsWritable loaded) (line : IsLine source) where
  pub for_source-Sourced : Sourced source loaded (for_source source loaded)
  unfolding for_source
  for_source-Sourced = elim (Bool-cases (bytes_eq loaded.source_path source)) [
    | inl same ↦ rw same (record {
      same_path = refl;
      for_this_source = bytes_eq→eq loaded.source_path source same;
      same_client = refl;
      same_next = refl;
      kept_offset = λ _. refl;
      new_offset = λ h. absurd (clash (sym same ∙ h));
      writable = fits;
    })
    | inr differ ↦ rw differ (record {
      same_path = refl;
      for_this_source = refl;
      same_client = refl;
      same_next = refl;
      kept_offset =
          λ h. absurd (clash (sym (ap (λ t. bytes_eq t source) h ∙ bytes_eq_refl source) ∙ differ));
      new_offset = λ _. refl;
      writable = record {
        named = fits.named;
        client_line = fits.client_line;
        source_line = line;
        next_id_fits = fits.next_id_fits;
        next_id_counts = fits.next_id_counts;
        offset_fits = omega arith;
        device_fits = omega arith;
        inode_fits = omega arith;
      };
    })
  ]
    where
      clash : true ≡ false → ⊥
      clash h = cc

  All-IsBelow :
      (state : ClientState) (maximum : ℕ) (ms : List LogMessage)
      → maximum < state.next_id
      → All (IsWithin state.client_id maximum) ms
      → All (IsBelow state) ms
  All-IsBelow state maximum [] small h = tt
  All-IsBelow state maximum (m ∷ rest) small h =
      ((h.0.0, omega (arith, h.0.1, small)), All-IsBelow state maximum rest small h.1)

  pub above_recovered-Corrects :
      (maximum : ℕ)
      → Maximum loaded.client_id 0 recovered maximum
      → maximum < 2 ^ 64
      → (maximum == greatest_id) ≡ false
      → Corrects source recovered loaded (above_recovered maximum (for_source source loaded)).1
  unfolding above_recovered
  above_recovered-Corrects maximum m small room =
      let s = for_source-Sourced in
      let state = for_source source loaded in
      let within = subst (λ c. All (IsWithin c maximum) recovered) (sym s.same_client) m.within in
      elim (Bool-cases (leb state.next_id maximum)) [
        | inl low ↦ rw low (record {
          same_path = s.same_path;
          for_this_source = s.for_this_source;
          same_client = s.same_client;
          no_lower = ground (arith, s.same_next);
          above =
              All-IsBelow (record state { next_id = maximum + 1 }) maximum recovered (omega arith)
                within;
          kept_offset = s.kept_offset;
          new_offset = s.new_offset;
          writable = record {
            named = s.writable.named;
            client_line = s.writable.client_line;
            source_line = s.writable.source_line;
            next_id_fits = ground (arith, room, small);
            next_id_counts = omega arith;
            offset_fits = s.writable.offset_fits;
            device_fits = s.writable.device_fits;
            inode_fits = s.writable.inode_fits;
          };
        })
        | inr high ↦ rw high (record {
          same_path = s.same_path;
          for_this_source = s.for_this_source;
          same_client = s.same_client;
          no_lower = omega (arith, s.same_next);
          above = All-IsBelow state maximum recovered (ground arith) within;
          kept_offset = s.kept_offset;
          new_offset = s.new_offset;
          writable = s.writable;
        })
      ]
