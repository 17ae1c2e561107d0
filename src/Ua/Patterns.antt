-- ===== src/Ua/Patterns.antt =====
-- The regular expressions of ua.go.
use ip_unt1_com.Prelude.{[], ◌∷◌, Text, bytes, map, ◌==◌, ◌||◌}
use ip_unt1_com.Ua.Regexp.{
  Re, byte, boundary, both, either, many, many_lazy, group, lit, lit_fold, maybe, one_of, in_order,
  digits, any_byte,
}

-- `(\d+(?:\.\d+)?)`, as a numbered group.
abbrev version : Re
version = both digits (maybe (both (lit (bytes ".")) digits))

-- `\d+(?:[._]\d+)*`
abbrev dotted : Re
dotted = both digits (many (both (byte (λ c. c == b'.' || c == b'_')) digits))

abbrev word : Text → Re
word s = both boundary (lit s)

abbrev versioned : Text → Re
versioned s = both (word s) (group 1 version)

-- `botRe`.
unfoldable pub bot_re : Re
bot_re = in_order (
    boundary
    ∷ one_of (
        map lit_fold (
          bytes "bot"
          ∷ bytes "crawler"
          ∷ bytes "spider"
          ∷ bytes "scrape"
          ∷ bytes "curl"
          ∷ bytes "wget"
          ∷ bytes "httpie"
          ∷ bytes "python-requests"
          ∷ bytes "go-http-client"
          ∷ bytes "java/"
          ∷ bytes "okhttp"
          ∷ bytes "libwww"
          ∷ bytes "axios"
          ∷ []))
    ∷ boundary
    ∷ [])

-- `reEdge`, `reOpera`, `reOperaOld`, `reVivaldi`, `reSamsung`, `reFirefox`, `reChrome`.
unfoldable pub re_edge : Re
re_edge = in_order (
    word (bytes "Edg")
    ∷ maybe (one_of (lit (bytes "e") ∷ lit (bytes "A") ∷ lit (bytes "iOS") ∷ []))
    ∷ lit (bytes "/")
    ∷ group 1 version
    ∷ [])

unfoldable pub re_opera : Re
re_opera = versioned (bytes "OPR/")

unfoldable pub re_opera_old : Re
re_opera_old = versioned (bytes "Opera/")

unfoldable pub re_vivaldi : Re
re_vivaldi = versioned (bytes "Vivaldi/")

unfoldable pub re_samsung : Re
re_samsung = versioned (bytes "SamsungBrowser/")

abbrev named : Text → Text → Re
named a b = in_order (boundary ∷ either (lit a) (lit b) ∷ lit (bytes "/") ∷ group 1 version ∷ [])

unfoldable pub re_firefox : Re
re_firefox = named (bytes "Firefox") (bytes "FxiOS")

unfoldable pub re_chrome : Re
re_chrome = named (bytes "Chrome") (bytes "CriOS")

-- `reSafari`.
unfoldable pub re_safari : Re
re_safari = in_order (versioned (bytes "Version/") ∷ many any_byte ∷ word (bytes "Safari/") ∷ [])

-- `reIE`.
unfoldable pub re_ie : Re
re_ie =
    either (versioned (bytes "MSIE ")) (
      in_order (word (bytes "Trident/") ∷ many any_byte ∷ lit (bytes "rv:") ∷ group 2 version ∷ []))

-- `reIOS`.
unfoldable pub re_ios : Re
re_ios =
    both (one_of (lit (bytes "iPhone") ∷ lit (bytes "iPad") ∷ lit (bytes "iPod") ∷ []))
      (maybe (in_order (many_lazy any_byte ∷ lit (bytes "OS ") ∷ group 1 dotted ∷ [])))

-- `reMac`, `reAndroid`, `reWindows`, `reChromeOS`, `reLinux`.
unfoldable pub re_mac : Re
re_mac = both (lit (bytes "Mac OS X ")) (group 1 dotted)

unfoldable pub re_android : Re
re_android =
    both (lit (bytes "Android ")) (group 1 (both digits (many (both (lit (bytes ".")) digits))))

unfoldable pub re_windows : Re
re_windows = both (lit (bytes "Windows NT ")) (group 1 version)

unfoldable pub re_chrome_os : Re
re_chrome_os = lit (bytes "CrOS")

unfoldable pub re_linux : Re
re_linux = either (lit (bytes "Linux")) (lit (bytes "X11"))
