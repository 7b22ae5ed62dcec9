-- ===== src/Util/Tests.antt =====
-- A text with a tag, and a client behind a proxy.
use kiya.Base.{◌≡◌, refl, true, ◌&&◌, ◌∷◌, ◌++◌, some, if◌then◌else◌}
use kiya.Text.{Text, codes, all_in, trim_space, trim_left, text_eq}
use kiya.Util.{escape_byte, html_escape, Addresses, some_part, remote_ip, real_ip}
use kiya.Util.Forwarded.{real_ip-appended}

abbrev tag : Text
tag = codes "<b>&"

html_escape-tag : html_escape tag ≡ codes "&lt;b&gt;&amp;"
unfolding html_escape escape_byte codes
html_escape-tag = refl

-- every address is a host by itself, and the one of the proxy is private
abbrev net : Addresses
net = record { host_of = λ s. some s; is_private = λ s. text_eq s (codes "10.0.0.1") }

real_ip-appended_example :
    real_ip net true
      (codes "10.0.0.1")
      (codes "1.1.1.1" ++ b',' ∷ codes " 9.9.9.9")
      (codes "2.2.2.2")
    ≡ (if net.is_private (remote_ip net (codes "10.0.0.1")) && true
        then codes "9.9.9.9"
        else remote_ip net (codes "10.0.0.1"))
real_ip-appended_example =
    real_ip-appended net true (codes "10.0.0.1") (codes "1.1.1.1") (codes " 9.9.9.9")
      (codes "9.9.9.9") (codes "2.2.2.2") (unfold all_in codes in refl)
      (unfold some_part trim_space trim_left codes in refl)
