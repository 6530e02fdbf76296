-- ===== src/Control/Explain.antt =====
-- ctl_cli_wrap.c, rstplib/base.h and stp_in.c: the texts of the error codes.
use Prim.Native.String.{String}
use rstp.Prelude.{ℕ, zero, suc, ◌-◌, ◌&&◌, if◌then◌else◌, ltb, List, [], ◌∷◌, ℤ, pos, negsuc, leb}

-- `RSTP_ERRORS`, without the last, which is not a code.
abbrev rstp_error_names : List String
rstp_error_names =
    "STP_OK" ∷ "STP_Cannot_Find_Vlan" ∷ "STP_Imlicite_Instance_Create_Failed"
    ∷ "STP_Small_Bridge_Priority" ∷ "STP_Large_Bridge_Priority"
    ∷ "STP_Bridge_Priority_Not_A_Multiple_Of_4096" ∷ "STP_Small_Hello_Time" ∷ "STP_Large_Hello_Time"
    ∷ "STP_Small_Max_Age" ∷ "STP_Large_Max_Age" ∷ "STP_Small_Forward_Delay"
    ∷ "STP_Large_Forward_Delay" ∷ "STP_Forward_Delay_And_Max_Age_Are_Inconsistent"
    ∷ "STP_Hello_Time_And_Max_Age_Are_Inconsistent" ∷ "STP_Small_Port_Priority"
    ∷ "STP_Large_Port_Priority" ∷ "STP_Port_Priority_Not_A_Multiple_Of_16" ∷ "STP_Large_Port_PCost"
    ∷ "STP_Vlan_Had_Not_Yet_Been_Created" ∷ "STP_Port_Is_Absent_In_The_Vlan"
    ∷ "STP_Big_len8023_Format" ∷ "STP_Small_len8023_Format" ∷ "STP_len8023_Format_Gt_Len"
    ∷ "STP_Not_Proper_802_3_Packet" ∷ "STP_Invalid_Protocol" ∷ "STP_Invalid_Version"
    ∷ "STP_Had_Not_Yet_Been_Enabled_On_The_Vlan" ∷ "STP_Cannot_Create_Instance_For_Vlan"
    ∷ "STP_Cannot_Create_Instance_For_Port" ∷ "STP_Invalid_Bridge_Priority"
    ∷ "STP_There_Are_No_Ports" ∷ "STP_Cannot_Compute_Bridge_Prio" ∷ "STP_Another_Error"
    ∷ "STP_Nothing_To_Do" ∷ []

-- `CTL_ERRORS`
abbrev ctl_error_names : List String
ctl_error_names =
    "Err_Interface_not_a_bridge" ∷ "Err_Bridge_RSTP_not_enabled" ∷ "Err_Bridge_is_down"
    ∷ "Err_Port_does_not_belong_to_bridge" ∷ []

-- STP_LAST_DUMMY
abbrev stp_last_dummy : ℕ
stp_last_dummy = 34

-- `names[i]`; `other` is for an index that is out of range.
abbrev name_at : String → List String → ℕ → String
name_at other [] i = other
name_at other (s ∷ names) zero = s
name_at other (s ∷ names) (suc i) = name_at other names i

-- `CTL_error_explanation`; `unknown` is what sprintf makes of an unknown code.
unfoldable pub ctl_error_explanation : (ℤ → String) → ℤ → String
ctl_error_explanation unknown (negsuc n) = "Error doing ctl command"
ctl_error_explanation unknown (pos n) =
    if ltb n stp_last_dummy
    then name_at (unknown (pos n)) rstp_error_names n
    else if ltb 1000 n && ltb n 1005
    then name_at (unknown (pos n)) ctl_error_names (n - 1000 - 1)
    else unknown (pos n)

-- `STP_IN_get_error_explanation`
unfoldable pub get_error_explanation : ℤ → String
get_error_explanation (negsuc n) = "Too small error code :("
get_error_explanation (pos n) =
    if leb stp_last_dummy n
    then "Too big error code :("
    else name_at "Too big error code :(" rstp_error_names n
