-- ===== src/Assembly/Start.antt =====
-- How an assembly begins: `new`, `with_base_url`, `from_url`, `from_url_with_client` and the setters of
-- src/assembly.rs.
pub mod Ready
use zsync_rs.Prelude.{ℕ, Option, none, some}
use zsync_rs.Control.{Bytes, ControlFile}
use zsync_rs.Http.Client
use zsync_rs.Http.Client.{HttpClient}
use zsync_rs.Http.Fetch.{Reply, new_client, fetch_control_file}
use zsync_rs.Assembly.{ZsyncAssembly, AssemblyError, with_client}
use zsync_rs.Assembly.Urls.{extract_base_url}

pub data Result {ℓ} (A : Type ℓ) : Type ℓ where
  ok : A → Result A
  err : AssemblyError → Result A

-- `with_client` does not fail.
unfoldable pub with_base_url : ControlFile → Bytes → Option Bytes → Result ZsyncAssembly
with_base_url control output_path base_url =
    Result.ok (with_client control output_path base_url new_client)

unfoldable pub new : ControlFile → Bytes → Result ZsyncAssembly
unfolding with_base_url
new control output_path = with_base_url control output_path none

-- What the control file, or the error of its request, comes to.
begin : Bytes → Bytes → HttpClient → Client.Result ControlFile → Result ZsyncAssembly
begin control_url output_path http (Client.Result.err e) = Result.err (AssemblyError.http e)
begin control_url output_path http (Client.Result.ok control) =
    Result.ok (with_client control output_path (some (extract_base_url control_url)) http)

module _ {W : Type 0} (get : W → Bytes → W × Reply) where
  unfoldable pub from_url_with_client : Bytes → Bytes → HttpClient → W → W × Result ZsyncAssembly
  unfolding begin
  from_url_with_client control_url output_path http w =
      let (w', fetched) = fetch_control_file get control_url w in
      (w', begin control_url output_path http fetched)

  unfoldable pub from_url : Bytes → Bytes → W → W × Result ZsyncAssembly
  unfolding from_url_with_client
  from_url control_url output_path w = from_url_with_client control_url output_path new_client w

unfoldable pub set_range_gap_threshold : ℕ → ZsyncAssembly → ZsyncAssembly
set_range_gap_threshold threshold s = record s { range_gap_threshold = threshold }
