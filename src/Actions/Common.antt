-- ===== src/Actions/Common.antt =====
-- server/api/actions/common.js
use Prim.Native.String.{◌++◌ as str_append}
use schulealsstaat.Base.{ℕ, String, Bool, Option, some, str_eq}
use schulealsstaat.Types.{Student, Profile}
use schulealsstaat.Server.{Crypto}

unfoldable pub check_password : Crypto → Student → String → Bool
check_password c st pwd = str_eq (c.sha256 (str_append pwd st.pwdsalt)) st.pwdhash

-- `student_public_only`, with the reference that `transaction` adds to it.
unfoldable pub student_public_only : Student → Option ℕ → Profile
student_public_only st reference = record {
  reference = reference;
  special_name = st.special_name;
  firstname = st.firstname;
  lastname = st.lastname;
  country = st.country;
  type = some st.type;
  qrid = st.qrid;
}
