-- ===== src/Signatures/Builtin.antt =====
-- crates/budu-signatures/src/builtin.rs: the built-in signatures.
use budu_waf.Prelude.{lit, List, [], ◌∷◌, none, some, String}
use budu_waf.Signatures.{Signature}

abbrev literal : String → String → String → Signature
literal id pattern reason = record {
  id = lit id;
  literal = some (lit pattern);
  regex = none;
  status = 403;
  reason = lit reason;
}

abbrev re : String → String → String → Signature
re id pattern reason = record {
  id = lit id;
  literal = none;
  regex = some (lit pattern);
  status = 403;
  reason = lit reason;
}

abbrev pub signatures : List Signature
signatures =
    literal "sqli.union_select" "union select" "SQL injection: UNION SELECT"
    ∷ literal "sqli.sleep" "sleep(" "SQL injection: time-based (sleep)"
    ∷ literal "sqli.benchmark" "benchmark(" "SQL injection: time-based (benchmark)"
    ∷ literal "sqli.information_schema" "information_schema" "SQL injection: schema probe"
    ∷ re "sqli.or_boolean" "(?:'|\"| )or +[0-9]+ *= *[0-9]+" "SQL injection: boolean tautology"
    ∷ re "sqli.union_select_ws" "union +select" "SQL injection: UNION SELECT (spaced)"
    ∷ re "sqli.comment_tail" "(?:--|#|/\\*) *$" "SQL injection: trailing comment"
    ∷ literal "xss.script_open" "<script" "XSS: <script> tag"
    ∷ literal "xss.js_proto" "javascript:" "XSS: javascript: URI"
    ∷ literal "xss.svg_onload" "<svg" "XSS: <svg> vector"
    ∷ literal "xss.img_onerror" "onerror=" "XSS: onerror handler"
    ∷ re "xss.event_handler" " on(?:load|click|mouseover|focus|error) *="
        "XSS: inline event handler"
    ∷ literal "lfi.dotdot" "../" "Path traversal: ../"
    ∷ literal "lfi.dotdot_back" "..\\" "Path traversal: ..\\"
    ∷ literal "lfi.etc_passwd" "/etc/passwd" "LFI: /etc/passwd"
    ∷ literal "lfi.win_ini" "boot.ini" "LFI: boot.ini"
    ∷ re "rce.shell_meta" "(?:;|\\|\\||&&|`|\\$\\() *(?:cat|ls|id|whoami|curl|wget|nc|bash|sh)"
        "Command injection: shell metacharacter + command"
    ∷ []
