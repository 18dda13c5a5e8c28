-- ===== src/Http/Fetch/Parsed.antt =====
-- When `fetch_control_file` of src/http.rs succeeds.
use zsync_rs.Prelude.{◌≡◌, refl}
use zsync_rs.Control.{Bytes, ControlFile}
use zsync_rs.Control.Header
use zsync_rs.Control.Header.{parse}
use zsync_rs.Http.Client.{Result}
use zsync_rs.Http.Fetch.{Reply, parsed, read_reply, fetch_control_file}

-- The body of a reply parses as the control file.
pub IsBody : Reply → ControlFile → Type 0
IsBody (Reply.failed e) control = ⊥
IsBody (Reply.body bytes) control = parse bytes ≡ Header.Result.ok control

parsed-ok :
    (r : Header.Result ControlFile) (control : ControlFile)
    → parsed r ≡ Result.ok control
    → r ≡ Header.Result.ok control
unfolding parsed
parsed-ok (Header.Result.ok c) control h = cc h
parsed-ok (Header.Result.err e) control h = cc h

read_reply-IsBody :
    (reply : Reply) (control : ControlFile)
    → read_reply reply ≡ Result.ok control
    → IsBody reply control
unfolding read_reply IsBody
read_reply-IsBody (Reply.failed e) control h = cc h
read_reply-IsBody (Reply.body bytes) control h = parsed-ok (parse bytes) control h

pub fetch_control_file-IsBody :
    {W : Type 0} (get : W → Bytes → W × Reply) (url : Bytes) (w : W) (control : ControlFile)
    → (fetch_control_file get url w).1 ≡ Result.ok control
    → IsBody (get w url).1 control
unfolding fetch_control_file
fetch_control_file-IsBody get url w control h = read_reply-IsBody (get w url).1 control h

-- The control file that arrives has been checked.
pub IsBody-parse :
    (reply : Reply) (control : ControlFile)
    → IsBody reply control
    → (bytes : Bytes) × (reply ≡ Reply.body bytes) × (parse bytes ≡ Header.Result.ok control)
unfolding IsBody
IsBody-parse (Reply.failed e) control h = absurd h
IsBody-parse (Reply.body bytes) control h = (bytes, refl, h)
